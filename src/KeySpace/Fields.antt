-- ===== src/KeySpace/Fields.antt =====
-- That a change of one field of the record changes what one key holds.
use byte_battles.Base.{
  ℕ, ◌≡◌, refl, ap, ◌≢◌, inl, inr, Bool, true, false, Option, List, ◌==◌, ==_iff, Bool-cases,
}
use byte_battles.Base.Text.{Text}
use byte_battles.Enums.{Language, language_eq}
use byte_battles.Redis.{Redis, set_key, set_warm}
use byte_battles.KeySpace.{Kind, Key, contents}

other_worker : (i j : ℕ) (kind : Kind) → Key.worker j kind ≢ Key.worker i kind → (j == i) ≡ false
other_worker i j kind n = elim (Bool-cases (j == i)) [
  | inl e ↦ absurd (n (ap (λ x. Key.worker x kind) ((==_iff j i).0 e)))
  | inr e ↦ e
]

module _ (i : ℕ) (r : Redis) where
  pub contents-shutdown :
      (v : Option Bool) (k : Key)
      → k ≢ Key.worker i Kind.shutdown
      → contents (record r { shutdown = set_key r.shutdown i v }) k ≡ contents r k
  unfolding set_key
  contents-shutdown v Key.job_list n = refl
  contents-shutdown v Key.shutdown_key n = refl
  contents-shutdown v (Key.warm_queue l) n = refl
  contents-shutdown v (Key.worker j Kind.shutdown) n = rw (other_worker i j Kind.shutdown n) refl
  contents-shutdown v (Key.worker j Kind.heartbeat) n = refl
  contents-shutdown v (Key.worker j Kind.submission) n = refl

  pub contents-heartbeat :
      (v : Option ℕ) (k : Key)
      → k ≢ Key.worker i Kind.heartbeat
      → contents (record r { heartbeat = set_key r.heartbeat i v }) k ≡ contents r k
  unfolding set_key
  contents-heartbeat v Key.job_list n = refl
  contents-heartbeat v Key.shutdown_key n = refl
  contents-heartbeat v (Key.warm_queue l) n = refl
  contents-heartbeat v (Key.worker j Kind.shutdown) n = refl
  contents-heartbeat v (Key.worker j Kind.heartbeat) n = rw (other_worker i j Kind.heartbeat n) refl
  contents-heartbeat v (Key.worker j Kind.submission) n = refl

  pub contents-submission :
      (v : Option ℕ) (k : Key)
      → k ≢ Key.worker i Kind.submission
      → contents (record r { submission = set_key r.submission i v }) k ≡ contents r k
  unfolding set_key
  contents-submission v Key.job_list n = refl
  contents-submission v Key.shutdown_key n = refl
  contents-submission v (Key.warm_queue l) n = refl
  contents-submission v (Key.worker j Kind.shutdown) n = refl
  contents-submission v (Key.worker j Kind.heartbeat) n = refl
  contents-submission v (Key.worker j Kind.submission) n =
      rw (other_worker i j Kind.submission n) refl

pub contents-shutdown_all :
    (v : Option Bool) (r : Redis) (k : Key)
    → k ≢ Key.shutdown_key
    → contents (record r { shutdown_all = v }) k ≡ contents r k
contents-shutdown_all v r Key.job_list n = refl
contents-shutdown_all v r Key.shutdown_key n = absurd (n refl)
contents-shutdown_all v r (Key.warm_queue l) n = refl
contents-shutdown_all v r (Key.worker i Kind.shutdown) n = refl
contents-shutdown_all v r (Key.worker i Kind.heartbeat) n = refl
contents-shutdown_all v r (Key.worker i Kind.submission) n = refl

pub contents-jobs :
    (v : List ℕ) (r : Redis) (k : Key)
    → k ≢ Key.job_list
    → contents (record r { jobs = v }) k ≡ contents r k
contents-jobs v r Key.job_list n = absurd (n refl)
contents-jobs v r Key.shutdown_key n = refl
contents-jobs v r (Key.warm_queue l) n = refl
contents-jobs v r (Key.worker i Kind.shutdown) n = refl
contents-jobs v r (Key.worker i Kind.heartbeat) n = refl
contents-jobs v r (Key.worker i Kind.submission) n = refl

language_eq-other : (l m : Language) → Key.warm_queue m ≢ Key.warm_queue l → language_eq m l ≡ false
language_eq-other Language.c Language.c n = absurd (n refl)
language_eq-other Language.cpp Language.cpp n = absurd (n refl)
language_eq-other Language.python Language.python n = absurd (n refl)
language_eq-other Language.c Language.cpp n = refl
language_eq-other Language.c Language.python n = refl
language_eq-other Language.cpp Language.c n = refl
language_eq-other Language.cpp Language.python n = refl
language_eq-other Language.python Language.c n = refl
language_eq-other Language.python Language.cpp n = refl

pub language_eq_refl : (l : Language) → language_eq l l ≡ true
language_eq_refl Language.c = refl
language_eq_refl Language.cpp = refl
language_eq_refl Language.python = refl

pub contents-warm :
    (l : Language) (v : List Text) (r : Redis) (k : Key)
    → k ≢ Key.warm_queue l
    → contents (record r { warm = set_warm r.warm l v }) k ≡ contents r k
unfolding set_warm
contents-warm l v r Key.job_list n = refl
contents-warm l v r Key.shutdown_key n = refl
contents-warm l v r (Key.warm_queue m) n = rw (language_eq-other l m n) refl
contents-warm l v r (Key.worker i Kind.shutdown) n = refl
contents-warm l v r (Key.worker i Kind.heartbeat) n = refl
contents-warm l v r (Key.worker i Kind.submission) n = refl
