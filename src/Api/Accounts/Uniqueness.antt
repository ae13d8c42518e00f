-- ===== src/Api/Accounts/Uniqueness.antt =====
-- The invariant of the table of users, and what it says about looking rows up.
use byte_battles.Database.Queries.{first-none, first-All}
use byte_battles.Base.{
  ℕ, suc, ◌<◌, ◌≡◌, ◌≢◌, inl, inr, Bool, true, false, ◌||◌, none, List, [], ◌∷◌, ◌++◌, arith,
  Bool-cases, Option-cases, All, All-map, All-last,
}
use byte_battles.Base.Text.{Text, text_eq, text_eq_iff}
use byte_battles.Database.{first}
use byte_battles.Api.Accounts.{
  User, Users, Connection, works, commit_fails, refresh_fails, commit_row, has_username, has_email,
  has_id, any_user, new_row, insert_user,
}

-- Two rows share no column that is unique.
abbrev pub Differ : User → User → Type 0
Differ u v = (u.id ≢ v.id) × (u.username ≢ v.username) × (u.email ≢ v.email)

abbrev pub AllDiffer : List User → Type 0
AllDiffer [] = Unit
AllDiffer (u ∷ us) = All (Differ u) us × AllDiffer us

-- No two rows share a unique column, and the sequence is ahead of every id.
pub record IsKeyed (db : Users) : Type 0 where
  pub distinct : AllDiffer db.rows
  pub ahead : All (λ u. u.id < db.next_id) db.rows

AllDiffer-last :
    (us : List User) (v : User) → AllDiffer us → All (λ u. Differ u v) us → AllDiffer (us ++ v ∷ [])
AllDiffer-last [] v h k = (tt, tt)
AllDiffer-last (u ∷ us) v h k = (All-last (Differ u) us h.0 k.0, AllDiffer-last us v h.1 k.1)

pub text_eq-false : (s t : Text) → text_eq s t ≡ false → s ≢ t
text_eq-false s t h e = let k : text_eq s t ≡ true = (text_eq_iff s t).1 e in cc

fresh :
    (us : List User) (v : User)
    → All (λ u. u.id < v.id) us
    → All (λ u. has_username v.username u ≡ false) us
    → All (λ u. has_email v.email u ≡ false) us
    → All (λ u. Differ u v) us
fresh [] v h k l = tt
fresh (u ∷ us) v h k l = (
  (omega (arith, h.0), text_eq-false u.username v.username k.0, text_eq-false u.email v.email l.0),
  fresh us v h.1 k.1 l.1,
)

pub any_user-false :
    (test : User → Bool) (db : Users) → any_user test db ≡ false → first test db.rows ≡ none
any_user-false test db h = elim (Option-cases (first test db.rows)) [
  | inl e ↦ e
  | inr (u, e) ↦ absurd (ground (arith, e, h))
]

pub commit_row-IsKeyed :
    (connection : Connection) (u : User) (before after : Users)
    → IsKeyed before
    → IsKeyed after
    → IsKeyed (commit_row connection u before after).1
commit_row-IsKeyed works u before after v w = w
commit_row-IsKeyed (commit_fails e) u before after v w = v
commit_row-IsKeyed (refresh_fails e) u before after v w = w

pub insert_user-IsKeyed :
    (name email hash : Text) (now : ℕ) (connection : Connection) (db : Users)
    → IsKeyed db
    → IsKeyed (insert_user name email hash now connection db).1
insert_user-IsKeyed name email hash now connection db inv =
    elim (Bool-cases (any_user (has_username name) db || any_user (has_email email) db)) [
      | inl e ↦ rw e inv
      | inr e ↦
          let row = new_row name email hash now db.next_id in
          rw e (
            commit_row-IsKeyed connection row db _ inv (record {
              distinct = AllDiffer-last db.rows row inv.distinct (
                  fresh db.rows row inv.ahead
                    (first-none (has_username name) db.rows
                      (any_user-false (has_username name) db (ground arith)))
                    (first-none (has_email email) db.rows
                      (any_user-false (has_email email) db (ground arith))));
              ahead =
                  All-last (λ u. u.id < suc db.next_id) db.rows
                    (All-map (λ u (h : u.id < db.next_id). omega arith) db.rows inv.ahead)
                    (omega arith);
            }))
    ]

pub id-fresh : (db : Users) → IsKeyed db → first (has_id db.next_id) db.rows ≡ none
id-fresh db inv =
    first-All (has_id db.next_id) db.rows
      (All-map (λ u (h : u.id < db.next_id). ground arith) db.rows inv.ahead)
