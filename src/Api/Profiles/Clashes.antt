-- ===== src/Api/Profiles/Clashes.antt =====
-- That a changed account (api/app/routes/users.py) clashes with no other row.
use byte_battles.Database.Queries.{first-none, first-All, first-satisfies}
use byte_battles.Base.{
  ◌≡◌, refl, sym, ◌∙◌, ◌≢◌, ◌⊎◌, inl, inr, Bool, false, none, some, List, [], ◌∷◌, arith,
  Bool-cases, All, All-map,
}
use byte_battles.Base.Text.{Text, text_eq, text_eq_iff}
use byte_battles.Database.{first}
use byte_battles.Api.Accounts.{User, Users, has_username, has_email, has_id, any_user, clashes}
use byte_battles.Api.Accounts.Uniqueness.{Differ, AllDiffer, IsKeyed, any_user-false}
use byte_battles.Api.Accounts.Updates.{Differ-sym}

-- Every other row differs from the one that was found.
others-Differ :
    (vs : List User) (me : User)
    → AllDiffer vs
    → first (has_id me.id) vs ≡ some me
    → All (λ v. (v.id ≡ me.id) ⊎ Differ v me) vs
unfolding first
others-Differ [] me h k = tt
others-Differ (v ∷ vs) me h k = elim (Bool-cases (has_id me.id v)) [
  | inl e ↦
      let q : v ≡ me = ground (arith, k, e) in
      (
        inl (ground arith),
        All-map (λ w (d : Differ v w). inr (rw (sym q) (Differ-sym v w d))) vs h.0,
      )
  | inr e ↦
      let k' : first (has_id me.id) vs ≡ some me = ground (arith, k, e) in
      (inr (first-satisfies (Differ v) (has_id me.id) vs me k' h.0), others-Differ vs me h.1 k')
]

-- A column that was kept, or whose new value no row had, is shared with no other row.
no_match :
    (column : User → Text) (new : Text) (vs : List User) (me : User)
    → (new ≡ column me) ⊎ All (λ v. text_eq (column v) new ≡ false) vs
    → All (λ v. (v.id ≡ me.id) ⊎ (column v ≢ column me)) vs
    → All (λ v. (v.id ≡ me.id) ⊎ (text_eq (column v) new ≡ false)) vs
no_match column new [] me h k = tt
no_match column new (v ∷ vs) me (inr h) k = (inr h.0, no_match column new vs me (inr h.1) k.1)
no_match column new (v ∷ vs) me (inl h) k = (
  elim k.0 [
    | inl e ↦ inl e
    | inr d ↦ elim (Bool-cases (text_eq (column v) new)) [
      | inl e ↦ absurd (d ((text_eq_iff (column v) new).0 e ∙ h))
      | inr e ↦ inr e
    ]
  ],
  no_match column new vs me (inl h) k.1,
)

no_clash :
    (u me : User) (vs : List User)
    → u.id ≡ me.id
    → All (λ v. (v.id ≡ me.id) ⊎ (text_eq v.username u.username ≡ false)) vs
    → All (λ v. (v.id ≡ me.id) ⊎ (text_eq v.email u.email ≡ false)) vs
    → All (λ v. clashes u v ≡ false) vs
no_clash u me [] e h k = tt
no_clash u me (v ∷ vs) e h k = (ground (arith, e, h.0, k.0), no_clash u me vs e h.1 k.1)

-- The rows of the other users have other values in a column, or are the user's own.
abbrev Apart : (User → Text) → User → User → Type 0
Apart column me v = (v.id ≡ me.id) ⊎ (column v ≢ column me)

username-Apart : (me v : User) → (v.id ≡ me.id) ⊎ Differ v me → Apart (λ w. w.username) me v
username-Apart me v (inl e) = inl e
username-Apart me v (inr d) = inr d.1

email-Apart : (me v : User) → (v.id ≡ me.id) ⊎ Differ v me → Apart (λ w. w.email) me v
email-Apart me v (inl e) = inl e
email-Apart me v (inr d) = inr d.2

kept_or_new :
    (test : Text → User → Bool) (n old : Text) (db : Users)
    → (n ≡ old) ⊎ (any_user (test n) db ≡ false)
    → (n ≡ old) ⊎ All (λ v. test n v ≡ false) db.rows
kept_or_new test n old db (inl e) = inl e
kept_or_new test n old db (inr e) = inr (first-none (test n) db.rows (any_user-false (test n) db e))

pub clashes-changed :
    (name email hash : Text) (me : User) (db : Users)
    → IsKeyed db
    → first (has_id me.id) db.rows ≡ some me
    → (name ≡ me.username) ⊎ (any_user (has_username name) db ≡ false)
    → (email ≡ me.email) ⊎ (any_user (has_email email) db ≡ false)
    → any_user (clashes (record me { username = name; email = email; password_hash = hash })) db
      ≡ false
clashes-changed name email hash me db inv found h k =
    let u = record me { username = name; email = email; password_hash = hash } in
    let others = others-Differ db.rows me inv.distinct found in
    let none_clashes : first (clashes u) db.rows ≡ none = first-All (clashes u) db.rows (
      no_clash u me db.rows refl
        (no_match (λ v. v.username) name db.rows me (kept_or_new has_username name me.username db h)
          (All-map (username-Apart me) db.rows others))
        (no_match (λ v. v.email) email db.rows me (kept_or_new has_email email me.email db k)
          (All-map (email-Apart me) db.rows others))) in
    rw none_clashes refl
