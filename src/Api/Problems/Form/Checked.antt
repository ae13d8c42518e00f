-- ===== src/Api/Problems/Form/Checked.antt =====
-- What the checks of the form establish.
use byte_battles.Base.{
  ◌≡◌, refl, ◌⊎◌, inl, inr, true, false, not, ◌&&◌, List, [], ◌∷◌, arith, ◌==◌, ==_iff, Bool-cases,
  Option-cases, length, is_empty, All,
}
use byte_battles.Base.Text.{Text, text_eq_iff}
use byte_battles.Base.Text.Affixes.{contains}
use byte_battles.Database.{Category, Db, select}
use byte_battles.Api.Http.{unhandled, Reply, reply, http_exception, ◌>>=◌}
use byte_battles.Api.Problems.Form.{
  ProblemForm, Archives, Upload, base_name, same_names, zip, inputs, outputs, check_files,
  check_tags, check_upload,
}

-- What an archive and the lists of a form have that passed the checks.
pub record IsChecked {Zip : Type 0} (u : Upload Zip) : Type 0 where
  pub some_files : is_empty u.input_files ≡ false
  pub paired : length u.input_files ≡ length u.output_files
  pub named : All (λ (i, o). base_name i ≡ base_name o) (zip u.input_files u.output_files)
  pub known_tags : length u.categories ≡ length u.array_data.tags

same_names-All :
    (is os : List Text)
    → same_names is os ≡ true
    → All (λ (i, o). base_name i ≡ base_name o) (zip is os)
unfolding same_names zip
same_names-All [] os h = tt
same_names-All (i ∷ is) [] h = tt
same_names-All (i ∷ is) (o ∷ os) h = (
  (text_eq_iff (base_name i) (base_name o)).0 (ground (arith, h)),
  same_names-All is os (ground (arith, h)),
)

-- Every refusal has status 400.
abbrev pub IsRefusal : {A : Type 0} → Reply A → Type 0
IsRefusal (reply a) = ⊥
IsRefusal (http_exception status detail) = status ≡ 400
IsRefusal (unhandled e) = ⊥

IsRefusal-bind : {A B : Type 0} (r : Reply A) (f : A → Reply B) → IsRefusal r → IsRefusal (r >>= f)
IsRefusal-bind (reply a) f h = absurd h
IsRefusal-bind (http_exception status detail) f h = h
IsRefusal-bind (unhandled e) f h = absurd h

check_files-cases :
    (is os : List Text)
    → ((check_files is os ≡ reply tt)
        × (is_empty is ≡ false)
        × (length is ≡ length os)
        × (same_names is os ≡ true))
      ⊎ IsRefusal (check_files is os)
unfolding check_files
check_files-cases is os = elim (Bool-cases (not (is_empty is) && not (is_empty os))) [
  | inr e ↦ inr (rw e refl)
  | inl e ↦ elim (Bool-cases (length is == length os)) [
    | inr f ↦ inr (rw (e, f) refl)
    | inl f ↦ elim (Bool-cases (same_names is os)) [
      | inr g ↦ inr (rw (e, f, g) refl)
      | inl g ↦ inl (rw (e, f, g) refl, ground (arith, e), (==_iff (length is) (length os)).0 f, g)
    ]
  ]
]

check_tags-cases :
    (tags : List Text) (db : Db)
    → ((categories : List Category) × (check_tags tags db ≡ reply categories)
        × (length categories ≡ length tags))
      ⊎ IsRefusal (check_tags tags db)
unfolding check_tags
check_tags-cases tags db =
    let found = select (λ c. contains c.slug tags) db.categories in
    elim (Bool-cases (length found == length tags)) [
      | inl e ↦ inl (found, rw e refl, (==_iff (length found) (length tags)).0 e)
      | inr e ↦ inr (rw e refl)
    ]

-- The checks refuse, or pass on what is checked.
pub check_upload-cases :
    (A : Archives) (form : ProblemForm) (db : Db)
    → ((u : Upload A.Zip) × (check_upload A form db ≡ reply u) × IsChecked u)
      ⊎ IsRefusal (check_upload A form db)
unfolding check_upload
check_upload-cases A form db = elim (Option-cases (A.open_zip form.zip_bytes)) [
  | inl e ↦ inr (rw e refl)
  | inr (archive, e) ↦
      let is = inputs A form archive in
      let os = outputs A form archive in
      elim (check_files-cases is os) [
        | inr d ↦ inr (rw e (IsRefusal-bind _ _ d))
        | inl (f, some_files, paired, named) ↦
            elim (Option-cases (A.array_data form.tags form.constraints form.sample_io)) [
              | inl g ↦ inr (rw (e, f, g) refl)
              | inr (array_data, g) ↦ elim (check_tags-cases array_data.tags db) [
                | inr d ↦ inr (rw (e, f, g) (IsRefusal-bind _ _ d))
                | inl (categories, h, known) ↦ inl (
                  record {
                    archive = archive;
                    input_files = is;
                    output_files = os;
                    array_data = array_data;
                    categories = categories;
                  },
                  rw (e, f, g, h) refl,
                  record {
                    some_files = some_files;
                    paired = paired;
                    named = same_names-All is os named;
                    known_tags = known;
                  },
                )
              ]
            ]
      ]
]
