-- ===== src/KeySpace/Apart.antt =====
-- That different keys have different texts.
use byte_battles.Base.{
  ℕ, ◌≡◌, refl, sym, ap, ◌∙◌, ◌≢◌, inl, inr, [], ◌∷◌, ◌++◌, ◌==◌, if◌then◌else◌, Bool-cases,
}
use byte_battles.Base.Text.{Text}
use byte_battles.Base.Number.{str, read_digits}
use byte_battles.Base.Number.Decimal.{read_digits-str}
use byte_battles.Enums.{Language}
use byte_battles.KeySpace.{Names, Kind, Key, colon, kind_name, worker_key, warm_queue_key, key_text}

-- The text before the first colon.
abbrev first_part : Text → Text
first_part [] = []
first_part (c ∷ s) = let rest = first_part s in if c == colon then [] else c ∷ rest

-- The two prefixes have no colon and differ, and the other two names differ and do not begin with a
-- prefix and a colon.
pub record AreApart (names : Names) : Type 0 where
  pub worker_whole : first_part names.worker_prefix ≡ names.worker_prefix
  pub warm_whole : first_part names.warm_queue_prefix ≡ names.warm_queue_prefix
  pub prefixes : names.worker_prefix ≢ names.warm_queue_prefix
  pub lists : names.job_list ≢ names.shutdown_key
  pub job_worker : first_part names.job_list ≢ names.worker_prefix
  pub job_warm : first_part names.job_list ≢ names.warm_queue_prefix
  pub shutdown_worker : first_part names.shutdown_key ≢ names.worker_prefix
  pub shutdown_warm : first_part names.shutdown_key ≢ names.warm_queue_prefix
  pub formats : (l m : Language) → names.format l ≡ names.format m → l ≡ m

first_part-append : (s rest : Text) → first_part s ≡ s → first_part (s ++ colon ∷ rest) ≡ s
first_part-append [] rest h = refl
first_part-append (c ∷ s) rest h = elim (Bool-cases (c == colon)) [
  | inl e ↦ let k = rw e at h in cc k
  | inr e ↦
      let k = rw e at h in
      let tail : first_part s ≡ s = cc k in rw (e, first_part-append s rest tail) refl
]

append_cancel : (p s t : Text) → p ++ s ≡ p ++ t → s ≡ t
append_cancel [] s t h = h
append_cancel (c ∷ p) s t h = append_cancel p s t (cc h)

module _ (names : Names) (apart : AreApart names) where
  worker_part : (i : ℕ) (k : Kind) → first_part (worker_key names i k) ≡ names.worker_prefix
  unfolding worker_key
  worker_part i k = first_part-append names.worker_prefix _ apart.worker_whole

  warm_part : (l : Language) → first_part (warm_queue_key names l) ≡ names.warm_queue_prefix
  unfolding warm_queue_key
  warm_part l = first_part-append names.warm_queue_prefix _ apart.warm_whole

  kind_name-injective : (k l : Kind) → kind_name k ≡ kind_name l → k ≡ l
  kind_name-injective Kind.shutdown Kind.shutdown h = refl
  kind_name-injective Kind.heartbeat Kind.heartbeat h = refl
  kind_name-injective Kind.submission Kind.submission h = refl
  kind_name-injective Kind.shutdown Kind.heartbeat h = cc h
  kind_name-injective Kind.shutdown Kind.submission h = cc h
  kind_name-injective Kind.heartbeat Kind.shutdown h = cc h
  kind_name-injective Kind.heartbeat Kind.submission h = cc h
  kind_name-injective Kind.submission Kind.shutdown h = cc h
  kind_name-injective Kind.submission Kind.heartbeat h = cc h

  worker_key-injective :
      (i j : ℕ) (k l : Kind) → worker_key names i k ≡ worker_key names j l → (i ≡ j) × (k ≡ l)
  unfolding worker_key
  worker_key-injective i j k l h =
      let tail = append_cancel names.worker_prefix _ _ h in
      let numbers : str i ++ colon ∷ kind_name k ≡ str j ++ colon ∷ kind_name l = cc tail in
      let read =
        sym (read_digits-str i colon (kind_name k) refl)
        ∙ ap (read_digits 0) numbers
        ∙ read_digits-str j colon (kind_name l) refl in
      let ids : i ≡ j = ap (λ (x : ℕ × Text). x.0) read in
      let names_of : colon ∷ kind_name k ≡ colon ∷ kind_name l = ap (λ (x : ℕ × Text). x.1) read in
      (ids, kind_name-injective k l (cc names_of))

  warm_queue_key-injective :
      (l m : Language) → warm_queue_key names l ≡ warm_queue_key names m → l ≡ m
  unfolding warm_queue_key
  warm_queue_key-injective l m h =
      let tail = append_cancel names.warm_queue_prefix _ _ h in
      let formats : names.format l ≡ names.format m = cc tail in apart.formats l m formats

  -- Different keys have different texts.
  pub key_text-injective : (k j : Key) → key_text names k ≡ key_text names j → k ≡ j
  key_text-injective Key.job_list Key.job_list h = refl
  key_text-injective Key.job_list Key.shutdown_key h = absurd (apart.lists h)
  key_text-injective Key.job_list (Key.warm_queue l) h =
      absurd (apart.job_warm (ap first_part h ∙ warm_part l))
  key_text-injective Key.job_list (Key.worker i k) h =
      absurd (apart.job_worker (ap first_part h ∙ worker_part i k))
  key_text-injective Key.shutdown_key Key.job_list h = absurd (apart.lists (sym h))
  key_text-injective Key.shutdown_key Key.shutdown_key h = refl
  key_text-injective Key.shutdown_key (Key.warm_queue l) h =
      absurd (apart.shutdown_warm (ap first_part h ∙ warm_part l))
  key_text-injective Key.shutdown_key (Key.worker i k) h =
      absurd (apart.shutdown_worker (ap first_part h ∙ worker_part i k))
  key_text-injective (Key.warm_queue l) Key.job_list h =
      absurd (apart.job_warm (ap first_part (sym h) ∙ warm_part l))
  key_text-injective (Key.warm_queue l) Key.shutdown_key h =
      absurd (apart.shutdown_warm (ap first_part (sym h) ∙ warm_part l))
  key_text-injective (Key.warm_queue l) (Key.warm_queue m) h =
      ap Key.warm_queue (warm_queue_key-injective l m h)
  key_text-injective (Key.warm_queue l) (Key.worker i k) h =
      absurd (apart.prefixes (sym (worker_part i k) ∙ ap first_part (sym h) ∙ warm_part l))
  key_text-injective (Key.worker i k) Key.job_list h =
      absurd (apart.job_worker (ap first_part (sym h) ∙ worker_part i k))
  key_text-injective (Key.worker i k) Key.shutdown_key h =
      absurd (apart.shutdown_worker (ap first_part (sym h) ∙ worker_part i k))
  key_text-injective (Key.worker i k) (Key.warm_queue l) h =
      absurd (apart.prefixes (sym (worker_part i k) ∙ ap first_part h ∙ warm_part l))
  key_text-injective (Key.worker i k) (Key.worker j l) h =
      let (ids, kinds) = worker_key-injective i j k l h in cc (ids, kinds)
