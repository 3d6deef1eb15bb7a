-- ===== src/Base/Nlog/Paths.antt =====
-- The file of a message, and how a program ends by one.
use nbsdk.Prelude.{
  ℕ, ◌+◌, ◌≡◌, true, refl, arith, none, some, List, [], ◌∷◌, ◌++◌, Text, length, drop,
}
use nbsdk.Net.Strings.{last_index_where}
use nbsdk.Net.Strings.Search.{IsFree}
use nbsdk.Base.Nlog.{is_separator, file_name}

abbrev pub separators : List ℕ
separators = b'\\' ∷ b'/' ∷ []

last_index_nothing : (s : Text) → IsFree separators s → last_index_where is_separator s ≡ none
unfolding last_index_where is_separator
last_index_nothing [] h = refl
last_index_nothing (d ∷ s) ((e, w), ((e', w'), _)) =
    rw (last_index_nothing s (w, (w', tt))) (rw (e, e') refl)

last_index-append :
    (folder : Text) (c : ℕ) (name : Text)
    → is_separator c ≡ true
    → IsFree separators name
    → last_index_where is_separator (folder ++ (c ∷ name)) ≡ some (length folder)
unfolding last_index_where
last_index-append [] c name e h = rw (last_index_nothing name h) (rw e refl)
last_index-append (d ∷ folder) c name e h = rw (last_index-append folder c name e h) refl

drop_behind :
    (folder : Text) (c : ℕ) (name : Text) → drop (length folder + 1) (folder ++ (c ∷ name)) ≡ name
drop_behind [] c name = refl
drop_behind (d ∷ folder) c name = ground (arith, drop_behind folder c name)

-- A name in which no separator stands is shown as it is, and also when it is behind a folder.
pub file_name-append :
    (folder : Text) (c : ℕ) (name : Text)
    → is_separator c ≡ true
    → IsFree separators name
    → (file_name name ≡ name) × (file_name (folder ++ (c ∷ name)) ≡ name)
unfolding file_name
file_name-append folder c name e h = (
  rw (last_index_nothing name h, file_name) refl,
  rw (last_index-append folder c name e h, file_name) (drop_behind folder c name),
)
