-- ===== src/Api/Accounts/Updates.antt =====
-- What a changed or a deleted row does to the table of users.
use byte_battles.Database.Queries.{first-none, All-update_first, All-select}
use byte_battles.Base.{
  ◌<◌, ◌≡◌, sym, ◌∙◌, ◌≢◌, inl, inr, Bool, false, not, List, [], ◌∷◌, arith, Bool-cases, All,
}
use byte_battles.Database.{update_first, select}
use byte_battles.Api.Accounts.{
  User, Users, Connection, has_id, any_user, clashes, update_user, delete_user,
}
use byte_battles.Api.Accounts.Uniqueness.{
  Differ, AllDiffer, IsKeyed, commit_row-IsKeyed, text_eq-false, any_user-false,
}

-- A row that clashes with no row of another id differs from it.
Differ-clashes : (u v : User) → clashes u v ≡ false → v.id ≢ u.id → Differ v u
Differ-clashes u v h k = (
  k,
  text_eq-false v.username u.username (ground (arith, h, k)),
  text_eq-false v.email u.email (ground (arith, h, k)),
)

pub Differ-sym : (u v : User) → Differ u v → Differ v u
Differ-sym u v (h, k, l) = ((λ e. h (sym e)), (λ e. k (sym e)), (λ e. l (sym e)))

-- A row takes the place of a row of the same id.
All-Differ :
    (u v : User) (vs : List User)
    → v.id ≡ u.id
    → All (Differ v) vs
    → All (λ w. clashes u w ≡ false) vs
    → All (Differ u) vs
All-Differ u v [] e h k = tt
All-Differ u v (w ∷ ws) e h k =
    (Differ-sym w u (Differ-clashes u w k.0 (λ q. h.0.0 (e ∙ sym q))), All-Differ u v ws e h.1 k.1)

AllDiffer-update_first :
    (u : User) (vs : List User)
    → AllDiffer vs
    → All (λ v. clashes u v ≡ false) vs
    → AllDiffer (update_first (has_id u.id) (λ v. u) vs)
unfolding update_first
AllDiffer-update_first u [] h k = tt
AllDiffer-update_first u (v ∷ vs) h k = elim (Bool-cases (has_id u.id v)) [
  | inl e ↦ rw e (All-Differ u v vs (ground arith) h.0 k.1, h.1)
  | inr e ↦ rw e (
    All-update_first (Differ v) (has_id u.id) u vs h.0 (Differ-clashes u v k.0 (ground arith)),
    AllDiffer-update_first u vs h.1 k.1,
  )
]

AllDiffer-select : (test : User → Bool) (vs : List User) → AllDiffer vs → AllDiffer (select test vs)
unfolding select
AllDiffer-select test [] h = tt
AllDiffer-select test (v ∷ vs) h = elim (Bool-cases (test v)) [
  | inl e ↦ rw e (All-select (Differ v) test vs h.0, AllDiffer-select test vs h.1)
  | inr e ↦ rw e (AllDiffer-select test vs h.1)
]

pub update_user-IsKeyed :
    (u : User) (connection : Connection) (db : Users)
    → IsKeyed db
    → u.id < db.next_id
    → IsKeyed (update_user u connection db).1
update_user-IsKeyed u connection db inv h = elim (Bool-cases (any_user (clashes u) db)) [
  | inl e ↦ rw e inv
  | inr e ↦ rw e (
      commit_row-IsKeyed connection u db _ inv (record {
        distinct =
            AllDiffer-update_first u db.rows inv.distinct
              (first-none (clashes u) db.rows (any_user-false (clashes u) db e));
        ahead = All-update_first (λ v. v.id < db.next_id) (has_id u.id) u db.rows inv.ahead h;
      }))
]

pub delete_user-IsKeyed : (u : User) (db : Users) → IsKeyed db → IsKeyed (delete_user u db)
delete_user-IsKeyed u db inv = record {
  distinct = AllDiffer-select (λ v. not (has_id u.id v)) db.rows inv.distinct;
  ahead = All-select (λ v. v.id < db.next_id) (λ v. not (has_id u.id v)) db.rows inv.ahead;
}
