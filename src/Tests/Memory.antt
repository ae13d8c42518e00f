-- ===== src/Tests/Memory.antt =====
-- An object store in memory that does what S3 documents. A listing has all the keys, and a uuid is
-- longer than all of them.
use byte_battles.Base.{
  ℕ, zero, suc, ◌+◌, ◌<◌, ◌≡◌, refl, sym, ap, ◌∙◌, ◌≢◌, inl, inr, Bool, true, false, ◌&&◌, Option,
  none, some, List, [], ◌∷◌, ◌++◌, arith, if◌then◌else◌, Bool-cases, length, replicate,
  length-append, All,
}
use byte_battles.Base.Text.{Text, text_eq, text_eq_iff}
use byte_battles.Base.Text.Affixes.{starts_with, contains}
use byte_battles.Base.Exec.{Result, ok, err, Fault}
use byte_battles.Services.{Bytes}
use byte_battles.Api.Backend.{Backend, Bucket, IsObjectStore, same_bucket}

abbrev Entry : Type 0
Entry = Bucket × Text × Bytes

abbrev is_at : Bucket → Text → Entry → Bool
is_at b k (c, j, v) = same_bucket c b && text_eq j k

unfoldable pub lookup : List Entry → Bucket → Text → Option Bytes
lookup [] b k = none
lookup (e ∷ s) b k = if is_at b k e then some e.2 else lookup s b k

unfoldable pub erase : Bucket → List Text → List Entry → List Entry
erase b keys [] = []
erase b keys (e ∷ s) =
    let rest = erase b keys s in if same_bucket b e.0 && contains e.1 keys then rest else e ∷ rest

unfoldable pub keys_under : Bucket → Text → List Entry → List Text
keys_under b prefix [] = []
keys_under b prefix (e ∷ s) =
    let rest = keys_under b prefix s in
    if same_bucket e.0 b && starts_with prefix e.1 then e.1 ∷ rest else rest

unfoldable pub total : List Entry → ℕ
total [] = 0
total (e ∷ s) = length e.1 + total s

abbrev found : Option Bytes → Result Bytes
found none = err Fault.external
found (some v) = ok v

abbrev is_there : Option Bytes → Bool
is_there none = false
is_there (some v) = true

abbrev pub memory : Backend
memory = record {
  State = List Entry;
  uuid_hex = λ s. (ok (replicate (suc (total s)) 97), s);
  put_object = λ b k v s. (ok tt, (b, k, v) ∷ s);
  get_object = λ b k s. (found (lookup s b k), s);
  head_object = λ b k s. (ok (is_there (lookup s b k)), s);
  delete_object = λ b k s. (ok tt, erase b (k ∷ []) s);
  list_objects = λ b prefix s. (ok (keys_under b prefix s, false), s);
  delete_objects = λ b keys s. (ok [], erase b keys s);
  flush = λ s. (ok tt, s);
  commit = λ s. (ok tt, s);
  refresh = λ s. (ok tt, s);
}

same_bucket_sym : (b c : Bucket) → same_bucket b c ≡ same_bucket c b
same_bucket_sym b c = ground arith

lookup-erase :
    (b c : Bucket) (keys : List Text) (k : Text) (s : List Entry)
    → lookup (erase b keys s) c k
      ≡ (if same_bucket b c && contains k keys then none else lookup s c k)
unfolding lookup erase
lookup-erase b c keys k [] = ground arith
lookup-erase b c keys k ((d, j, v) ∷ s) = elim (Bool-cases (text_eq j k)) [
  | inr e ↦ ground (arith, e, lookup-erase b c keys k s)
  | inl e ↦
      let q : j ≡ k = (text_eq_iff j k).0 e in
      ground (arith, e, ap (λ (t : Text). contains t keys) q, lookup-erase b c keys k s)
]

length-replicate : (n c : ℕ) → length (replicate n c) ≡ n
length-replicate zero c = refl
length-replicate (suc n) c = ap suc (length-replicate n c)

lookup-long : (s : List Entry) (b : Bucket) (k : Text) → total s < length k → lookup s b k ≡ none
unfolding lookup total
lookup-long [] b k h = refl
lookup-long ((c, j, v) ∷ s) b k h = elim (Bool-cases (text_eq j k)) [
  | inl e ↦ absurd (let q = ap length ((text_eq_iff j k).0 e) in omega (arith, h, q))
  | inr e ↦ ground (arith, e, lookup-long s b k (omega (arith, h)))
]

keys_under-All :
    (b : Bucket) (prefix : Text) (s : List Entry)
    → All (λ k. starts_with prefix k ≡ true) (keys_under b prefix s)
unfolding keys_under
keys_under-All b prefix [] = tt
keys_under-All b prefix (e ∷ s) = elim (Bool-cases (same_bucket e.0 b && starts_with prefix e.1)) [
  | inl h ↦ rw h (ground (arith, h), keys_under-All b prefix s)
  | inr h ↦ rw h (keys_under-All b prefix s)
]

contains-keys_under :
    (b : Bucket) (prefix k : Text) (s : List Entry)
    → starts_with prefix k ≡ true
    → lookup s b k ≢ none
    → contains k (keys_under b prefix s) ≡ true
unfolding lookup keys_under contains
contains-keys_under b prefix k [] h n = absurd (n refl)
contains-keys_under b prefix k ((c, j, v) ∷ s) h n = elim (Bool-cases (text_eq j k)) [
  | inl e ↦
      let q : starts_with prefix j ≡ true = rw ((text_eq_iff j k).0 e) h in
      ground (arith, e, q, n, contains-keys_under b prefix k s h)
  | inr e ↦ ground (arith, e, n, contains-keys_under b prefix k s h)
]

listing-ok :
    (keys js : List Text) (b c : Bool)
    → ◌≡◌ {A = Result (List Text × Bool)} (ok (keys, b)) (ok (js, c))
    → keys ≡ js
listing-ok keys js b c h = ground (arith, h)

found-ok : (o : Option Bytes) (v : Bytes) → found o ≡ ok v → o ≡ some v
found-ok none v h = cc h
found-ok (some w) v h = ap some (let e : w ≡ v = cc h in e)

is_there-true : (o : Option Bytes) → is_there o ≡ true → o ≢ none
is_there-true none h n = cc h
is_there-true (some v) h n = cc n

lookup-put_other :
    (b c : Bucket) (k j : Text) (v : Bytes) (s : List Entry)
    → (same_bucket b c && text_eq k j) ≡ false
    → lookup ((b, k, v) ∷ s) c j ≡ lookup s c j
unfolding lookup
lookup-put_other b c k j v s h = rw h refl

lookup-put_self :
    (b : Bucket) (k : Text) (v : Bytes) (s : List Entry) → lookup ((b, k, v) ∷ s) b k ≡ some v
unfolding lookup
lookup-put_self b k v s = ground (arith, text_eq_iff k k)

lookup-fresh :
    (s : List Entry) (u : Text)
    → replicate (suc (total s)) 97 ≡ u
    → (b : Bucket) (before after : Text) → lookup s b (before ++ (u ++ after)) ≡ none
lookup-fresh s u e b before after =
    let long : length u ≡ suc (total s) = sym (ap length e) ∙ length-replicate (suc (total s)) 97 in
    lookup-long s b (before ++ (u ++ after))
      (omega (arith, length-append before (u ++ after), length-append u after, long))

pub memory-IsObjectStore : IsObjectStore memory lookup
unfolding contains
memory-IsObjectStore = record {
  object-uuid_hex = λ s b k. refl;
  fresh_uuid = λ s u e b before after. lookup-fresh s u (cc e) b before after;
  object-flush = λ s b k. refl;
  object-commit = λ s b k. refl;
  object-refresh = λ s b k. refl;
  put_self = λ s b k v e. lookup-put_self b k v s;
  put_other = λ s b c k j v e. lookup-put_other b c k j v s e;
  get_self = λ s b k v e. found-ok (lookup s b k) v e;
  head_self = λ s b k e. is_there-true (lookup s b k) (cc e);
  object-get = λ s b c k j. refl;
  object-head = λ s b c k j. refl;
  delete_self = λ s b k e. lookup-erase b b (k ∷ []) k s ∙ ground (arith, text_eq_iff k k);
  delete_other = λ s b c k j e. lookup-erase b c (k ∷ []) j s ∙ ground (arith, e);
  object-list = λ s b c prefix j. refl;
  list_under = λ s b prefix keys truncated e.
      rw (← listing-ok (keys_under b prefix s) keys false truncated e) (keys_under-All b prefix s);
  list_complete = λ s b prefix k keys e under n.
      rw (← listing-ok (keys_under b prefix s) keys false false e)
        (contains-keys_under b prefix k s under n);
  delete_all_self = λ s b keys errors k e h n. lookup-erase b b keys k s ∙ ground (arith, h);
  delete_all_other = λ s b c keys k h. lookup-erase b c keys k s ∙ rw h refl;
}
