-- ===== src/Expander/Build.antt =====
-- xtask/build.rs: the copying of shakespeare-macro/src, each file without the lines that Strip leaves
-- out.
pub mod Texts
pub mod Copied
use shakespeare.Prelude.{
  Bool, true, false, Option, none, some, List, [], ◌∷◌, String, Result, ok, err, str_eq,
}
use shakespeare.Expander.Strip.{is_left_out, stripped_line}
use shakespeare.Expander.Lines.{lines}
use shakespeare.Effects
use shakespeare.Effects.{Stop, returned, and_then, unwrapping, pure, or_panic}

-- What the build script calls of the file system. `new_path` is the path below the copy that belongs
-- to one below the sources, if it has their prefix; `rerun_if_changed` prints a line for cargo.
pub record Tree : Type 1 where
  pub World : Type 0
  pub Error : Type 0
  pub PathBuf : Type 0
  pub new_path : PathBuf → Option PathBuf
  pub rerun_if_changed : PathBuf → World → World
  pub read : PathBuf → World → Result Error String × World
  pub create : PathBuf → World → Result Error (Unit {0}) × World
  pub write_line : PathBuf → String → World → Result Error (Unit {0}) × World
  pub exists : PathBuf → World → Bool
  pub create_dir_all : PathBuf → World → Result Error (Unit {0}) × World

pub data FileType : Type 0 where
  file dir symlink : FileType

module _ (tree : Tree) where
  open tree use {World, Error, PathBuf}

  -- An entry of the walk; its metadata may be out of reach.
  pub record DirEntry : Type 0 where
    pub path : PathBuf
    pub metadata : Result Error FileType
    pub extension : Option String

  abbrev pub Step : Type 0 → Type 0
  Step A = Effects.Step World Error A

  -- `is_file() && extension().unwrap() == "rs"`, where `none` is the panic.
  unfoldable pub is_source : FileType → Option String → Option Bool
  is_source file none = none
  is_source file (some extension) = some (str_eq extension "rs")
  is_source dir extension = some false
  is_source symlink extension = some false

  -- The loop over the lines.
  unfoldable pub write_lines : PathBuf → List String → Step (Unit {0})
  unfolding and_then is_left_out stripped_line
  write_lines new_path [] w = (ok tt, w)
  write_lines new_path (line ∷ rest) w = elim (is_left_out line) [
    | true ↦ write_lines new_path rest w
    | false ↦
        and_then (λ w. unwrapping (tree.write_line new_path (stripped_line line) w))
          (λ u. write_lines new_path rest) w
  ]

  abbrev pub create_and_write : PathBuf → String → Step (Unit {0})
  create_and_write new_path contents =
      and_then (λ w. unwrapping (tree.create new_path w))
        (λ u. write_lines new_path (lines contents))

  unfoldable pub copy_file : PathBuf → PathBuf → Step (Unit {0})
  unfolding and_then write_lines lines
  copy_file original_path new_path =
      and_then (λ w. unwrapping (tree.read original_path w)) (create_and_write new_path)

  -- `is_dir() && !new_path.exists()`
  abbrev pub make_dir : Bool → PathBuf → Step (Unit {0})
  make_dir true new_path w = (ok tt, w)
  make_dir false new_path w = unwrapping (tree.create_dir_all new_path w)

  abbrev pub if_dir : FileType → PathBuf → Step (Unit {0})
  if_dir dir new_path w = make_dir (tree.exists new_path w) new_path w
  if_dir file new_path w = (ok tt, w)
  if_dir symlink new_path w = (ok tt, w)

  abbrev pub by_source : PathBuf → PathBuf → FileType → Bool → Step (Unit {0})
  by_source original_path new_path metadata true = copy_file original_path new_path
  by_source original_path new_path metadata false = if_dir metadata new_path

  -- The body of the loop.
  unfoldable pub copy_entry : DirEntry → Step (Unit {0})
  unfolding and_then copy_file is_source
  copy_entry entry w =
      and_then (or_panic (tree.new_path entry.path))
        (λ new_path. and_then (pure entry.metadata) (λ metadata.
          and_then (or_panic (is_source metadata entry.extension))
            (by_source entry.path new_path metadata)))
        (tree.rerun_if_changed entry.path w)

  abbrev pub copy_found : Result Error DirEntry → Step (Unit {0})
  copy_found (err e) w = (err (returned e), w)
  copy_found (ok entry) w = copy_entry entry w

  -- `main`, over what the walk yields.
  unfoldable pub main : List (Result Error DirEntry) → Step (Unit {0})
  unfolding copy_entry and_then
  main [] w = (ok tt, w)
  main (entry ∷ entries) w = and_then (copy_found entry) (λ u. main entries) w
