-- ===== src/Api/Problems/Form.antt =====
-- api/app/routes/problems.py: what the creation of a problem asks of its form and its archive.
pub mod Checked
use byte_battles.Base.{
  ℕ, ◌/◌, Bool, true, false, not, ◌&&◌, Option, none, some, List, [], ◌∷◌, ◌++◌, ◌==◌,
  if◌then◌else◌, length, is_empty,
}
use byte_battles.Base.Text.{Text, codes, text_eq, split_on}
use byte_battles.Base.Text.Affixes.{starts_with, ends_with, contains, sort}
use byte_battles.Base.Exec.{Result}
use byte_battles.Enums.{Difficulty}
use byte_battles.Services.{Bytes}
use byte_battles.Database.{Category, Db, select}
use byte_battles.Api.Http.{Reply, reply, http_exception, ◌>>=◌}

-- The parameters of the request.
pub record ProblemForm : Type 0 where
  pub id : Text
  pub title : Text
  pub description : Text
  pub difficulty : Difficulty
  pub constraints : Text
  pub tags : Text
  pub sample_io : Text
  pub input_desc : Text
  pub output_desc : Text
  pub explanation : Option Text
  pub memory_limit_mb : ℕ
  pub time_limit_sec : ℕ
  pub visibility : Bool
  pub source : Option Text
  pub editorial : Option Text
  pub filename : Text
  pub zip_bytes : Bytes

-- `ProblemArrayDataValidator`
pub record ArrayData : Type 0 where
  pub tags : List Text
  pub constraints : List Text
  pub sample_io : List (Text × Text)

-- zipfile, and json with the validator: `none` for BadZipFile, and for a JSONDecodeError or a
-- ValidationError.
pub record Archives : Type 1 where
  pub Zip : Type 0
  pub open_zip : Bytes → Option Zip
  pub namelist : Zip → List Text
  pub read : Zip → Text → Result Bytes
  pub array_data : (tags constraints sample_io : Text) → Option ArrayData

-- `ProblemCreateResponse`
pub record ProblemCreateResponse : Type 0 where
  pub id : Text
  pub title : Text
  pub difficulty : Difficulty
  pub tags : List Text
  pub testcases : ℕ

abbrev last : Text → List Text → Text
last t [] = t
last t (s ∷ ss) = last s ss

-- `path.split("/")[-1]`
unfoldable pub base_name : Text → Text
base_name path = last [] (split_on 47 path)

abbrev head : List Text → Text
head [] = []
head (t ∷ ts) = t

-- The files of a folder of the archive, sorted.
unfoldable pub files_under : Text → List Text → List Text
files_under folder names =
    sort (select (λ f. starts_with folder f && not (ends_with (codes "/") f)) names)

-- No pair of the two lists has different base names.
unfoldable pub same_names : List Text → List Text → Bool
unfolding base_name
same_names [] outputs = true
same_names (i ∷ inputs) [] = true
same_names (i ∷ inputs) (o ∷ outputs) =
    text_eq (base_name i) (base_name o) && same_names inputs outputs

unfoldable pub zip : List Text → List Text → List (Text × Text)
zip [] bs = []
zip (a ∷ as') [] = []
zip (a ∷ as') (b ∷ bs) = (a, b) ∷ zip as' bs

-- A check that raises with status 400.
abbrev guard : Bool → Text → Reply (Unit {0})
guard true detail = reply tt
guard false detail = http_exception 400 detail

unfoldable pub check_files : (inputs outputs : List Text) → Reply (Unit {0})
check_files inputs outputs =
    guard (not (is_empty inputs) && not (is_empty outputs))
      (codes "ZIP must contain inputs/ and outputs/")
    >>= λ _.
        guard (length inputs == length outputs) (codes "Mismatch between input and output files")
        >>= λ _. guard (same_names inputs outputs) (
            codes
              "Mismatch in input and output file name. Each input file should have a corespoinding output file")

-- What passed the checks.
pub record Upload (Zip : Type 0) : Type 0 where
  pub archive : Zip
  pub input_files : List Text
  pub output_files : List Text
  pub array_data : ArrayData
  pub categories : List Category

abbrev or_refuse : {A : Type 0} → Option A → Text → Reply A
or_refuse none detail = http_exception 400 detail
or_refuse (some a) detail = reply a

unfoldable pub check_tags : List Text → Db → Reply (List Category)
check_tags tags db =
    let categories = select (λ c. contains c.slug tags) db.categories in
    if length categories == length tags
    then reply categories
    else http_exception 400 (codes "One or more tags are invalid")

abbrev prefix : ProblemForm → Text
prefix form = head (split_on 46 form.filename)

module _ (A : Archives) where
  abbrev pub inputs : ProblemForm → A.Zip → List Text
  inputs form archive = files_under (prefix form ++ codes "/inputs/") (A.namelist archive)

  abbrev pub outputs : ProblemForm → A.Zip → List Text
  outputs form archive = files_under (prefix form ++ codes "/outputs/") (A.namelist archive)

  abbrev check_lists : ProblemForm → Db → A.Zip → Reply (Upload A.Zip)
  check_lists form db archive =
      or_refuse (A.array_data form.tags form.constraints form.sample_io)
        (codes "Invalid format for tags, constraints, or sample_io")
      >>= λ array_data. check_tags array_data.tags db >>= λ categories. reply (record {
        archive = archive;
        input_files = inputs form archive;
        output_files = outputs form archive;
        array_data = array_data;
        categories = categories;
      })

  unfoldable pub check_upload : ProblemForm → Db → Reply (Upload A.Zip)
  unfolding files_under check_files check_tags
  check_upload form db =
      or_refuse (A.open_zip form.zip_bytes) (codes "Invalid ZIP file") >>= λ archive.
      check_files (inputs form archive) (outputs form archive) >>= λ _. check_lists form db archive
