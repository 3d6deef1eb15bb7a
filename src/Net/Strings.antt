-- ===== src/Net/Strings.antt =====
-- What net/http/http_url.cc uses of `std::string`, `std::regex`, `atoi` and `<<`. A string is the list
-- of its bytes; sizes and positions are `size_t`, and a search that finds nothing gives `npos`.
pub mod Order
pub mod Search
pub mod Decimal
use Prim.Native.Char.{code}
use Prim.Native.String.{String}
use nbsdk.Prelude.{
  ℕ, zero, suc, ◌+◌, ◌-◌, ◌*◌, ◌/◌, ◌%◌, ◌^◌, Bool, true, false, not, ◌&&◌, ◌||◌, Option, none,
  some, List, [], ◌∷◌, ◌++◌, map, Text, ltb, leb, ◌==◌, if◌then◌else◌, length, take, drop, ◌>>=◌,
}
use nbsdk.Prelude.Int.{ℤ, pos, negsuc}

-- The bytes of a literal.
abbrev pub codes : String → Text
codes String.[] = []
codes (String.◌∷◌ c s) = code c ∷ codes s

abbrev pub size_mod : ℕ
size_mod = 2 ^ 64

abbrev pub npos : ℕ
npos = 2 ^ 64 - 1

-- `size_t` sums and differences.
abbrev pub add_size : ℕ → ℕ → ℕ
add_size a b = (a + b) % size_mod

abbrev pub sub_size : ℕ → ℕ → ℕ
sub_size a b = (a + size_mod - b) % size_mod

abbrev pub is_empty : Text → Bool
is_empty [] = true
is_empty (c ∷ s) = false

unfoldable pub text_eq : Text → Text → Bool
text_eq [] [] = true
text_eq [] (d ∷ t) = false
text_eq (c ∷ s) [] = false
text_eq (c ∷ s) (d ∷ t) = (c == d) && text_eq s t

-- `std::string`'s `<`, by bytes.
unfoldable pub text_lt : Text → Text → Bool
text_lt s [] = false
text_lt [] (d ∷ t) = true
text_lt (c ∷ s) (d ∷ t) = ltb c d || ((c == d) && text_lt s t)

-- The index of the first byte that passes a test.
unfoldable pub index_where : (ℕ → Bool) → Text → Option ℕ
index_where p [] = none
index_where p (c ∷ s) = if p c then some 0 else (index_where p s >>= λ i. some (suc i))

-- The index of the last byte that passes a test.
unfoldable pub last_index_where : (ℕ → Bool) → Text → Option ℕ
last_index_where p [] = none
last_index_where p (c ∷ s) = elim (last_index_where p s) [
  | some i ↦ some (suc i)
  | none ↦ if p c then some 0 else none
]

abbrev pub or_npos : Option ℕ → ℕ
or_npos none = npos
or_npos (some i) = i

-- `s.find(c)` and `s.find_first_of(c)`
unfoldable pub find : Text → ℕ → ℕ
find s c = or_npos (index_where (λ d. d == c) s)

unfoldable pub find_first_not_of : Text → ℕ → ℕ
find_first_not_of s c = or_npos (index_where (λ d. not (d == c)) s)

unfoldable pub find_last_not_of : Text → ℕ → ℕ
find_last_not_of s c = or_npos (last_index_where (λ d. not (d == c)) s)

-- `s.substr(position, count)`; a position behind the end throws.
unfoldable pub substr : Text → ℕ → ℕ → Option Text
substr s position count =
    if ltb (length s) position then none else some (take count (drop position s))

-- `s.erase(0, count)`
abbrev pub erase_front : Text → ℕ → Text
erase_front s count = drop count s

-- `s.erase(position)`, at a position that is not behind the end.
abbrev pub erase_from : Text → ℕ → Text
erase_from s position = take position s

unfoldable pub to_lower : ℕ → ℕ
to_lower c = if leb b'A' c && leb c b'Z' then c + 32 else c

-- The parts of `s` between the bytes `c`, empty ones included, which the callers skip.
unfoldable pub split : ℕ → Text → List Text
split c [] = [] ∷ []
split c (d ∷ s) = elim (split c s) [
  | [] ↦ []
  | part ∷ parts ↦ if d == c then [] ∷ part ∷ parts else (d ∷ part) ∷ parts
]

abbrev pub is_digit : ℕ → Bool
is_digit c = leb b'0' c && leb c b'9'

-- The number that the digits at the front stand for, behind `n`.
unfoldable pub value : ℕ → Text → ℕ
value n [] = n
value n (c ∷ s) = let rest = value (n * 10 + (c - 48)) s in if is_digit c then rest else n

abbrev is_space : ℕ → Bool
is_space c = c == 32 || (leb 9 c && leb c 13)

abbrev pub int_max : ℕ
int_max = 2 ^ 31 - 1

-- A number out of the range of `int` is undefined behaviour.
positive : ℕ → Option ℤ
positive n = if leb n int_max then some (pos n) else none

negative : ℕ → Option ℤ
negative zero = some (pos 0)
negative (suc n) = if leb n int_max then some (negsuc n) else none

signed : Text → Option ℤ
unfolding positive negative
signed [] = some (pos 0)
signed (c ∷ s) =
    if c == b'-'
    then negative (value 0 s)
    else if c == b'+'
    then positive (value 0 s)
    else positive (value 0 (c ∷ s))

unfoldable pub atoi : Text → Option ℤ
unfolding signed
atoi [] = signed []
atoi (c ∷ s) = let rest = atoi s in if is_space c then rest else signed (c ∷ s)

-- The decimal digits of `n`, before `rest`. `n + 1` rounds are enough.
unfoldable pub digits : ℕ → ℕ → Text → Text
digits zero n rest = rest
digits (suc fuel) n rest =
    let more = digits fuel (n / 10) ((48 + n % 10) ∷ rest) in
    if ltb n 10 then (48 + n) ∷ rest else more

abbrev pub show_ℕ : ℕ → Text
show_ℕ n = digits (suc n) n []

abbrev pub show_ℤ : ℤ → Text
show_ℤ (pos n) = show_ℕ n
show_ℤ (negsuc n) = b'-' ∷ show_ℕ (suc n)
