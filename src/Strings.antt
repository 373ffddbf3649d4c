-- ===== src/Strings.antt =====
-- kernel/src/utility/strings.c over byte memory. A string is an address, and its characters go on
-- to a byte 0. The loops that walk to this byte run on fuel, and a result `none` is a walk that has
-- used it up. Characters are bytes.
pub mod Fill
pub mod Copy
pub mod Length
pub mod Number
use learning_os.Base.{
  ℕ, zero, suc, ◌+◌, ◌-◌, ◌*◌, ◌/◌, ◌%◌, Bool, true, false, ◌&&◌, ◌||◌, Option, none, some, ltb,
  leb, ◌==◌, if◌then◌else◌, ◌>>=◌, Mem, store, u8,
}

unfoldable pub isdigit : ℕ → Bool
isdigit c = leb 48 c && leb c 57

unfoldable pub isalpha : ℕ → Bool
isalpha c = (leb 65 c && leb c 90) || (leb 97 c && leb c 122)

unfoldable pub isspace : ℕ → Bool
isspace c = c == 32 || (c == 9 || (c == 10 || (c == 11 || (c == 12 || c == 13))))

unfoldable pub strcpy : ℕ → Mem → ℕ → ℕ → Option Mem
strcpy zero m dest src = none
strcpy (suc k) m dest src = elim (m src == 0) [
  | true ↦ some (store m dest 0)
  | false ↦ strcpy k (store m dest (m src)) (dest + 1) (src + 1)
]

-- The count ends the walk, so that it needs no fuel.
unfoldable pub strncpy : Mem → ℕ → ℕ → ℕ → Mem
strncpy m dest src zero = store m dest 0
strncpy m dest src (suc n) = elim (m src == 0) [
  | true ↦ store m dest 0
  | false ↦ strncpy (store m dest (m src)) (dest + 1) (src + 1) n
]

unfoldable pub strlen : ℕ → Mem → ℕ → Option ℕ
strlen zero m str = none
strlen (suc k) m str = elim (m str == 0) [
  | true ↦ some 0
  | false ↦ do n ← strlen k m (str + 1); some (suc n)
]

-- A load and a store of eight bytes
unfoldable pub move_longword : Mem → ℕ → ℕ → Mem
move_longword m dest source a =
    if leb dest a && ltb a (dest + 8) then m (source + (a - dest)) else m a

unfoldable pub move_longwords : Mem → ℕ → ℕ → ℕ → Mem
move_longwords m dest source zero = m
move_longwords m dest source (suc k) =
    move_longwords (move_longword m dest source) (dest + 8) (source + 8) k

unfoldable pub move_chars : Mem → ℕ → ℕ → ℕ → Mem
move_chars m dest source zero = m
move_chars m dest source (suc k) = move_chars (store m dest (m source)) (dest + 1) (source + 1) k

unfoldable pub memcpy : Mem → ℕ → ℕ → ℕ → Mem
memcpy m dest source n =
    let longwords = n / 8 in
    move_chars (move_longwords m dest source longwords) (dest + 8 * longwords)
      (source + 8 * longwords) (n % 8)

unfoldable pub memset : Mem → ℕ → ℕ → ℕ → Mem
memset m dest value zero = m
memset m dest value (suc n) = memset (store m dest value) (dest + 1) value n

-- The swaps of `reverse`, from both ends; each takes two of the characters.
unfoldable pub swap_ends : ℕ → Mem → ℕ → ℕ → Mem
swap_ends zero m str end = m
swap_ends (suc k) m str end =
    if ltb str end
    then swap_ends k (store (store m end (m str)) str (m end)) (str + 1) (end - 1)
    else m

-- Of the empty string `end` lies in front of `str`, and nothing is swapped.
unfoldable pub reverse : ℕ → Mem → ℕ → Option Mem
reverse k m str = do
  len ← strlen k m str
  some (if len == 0 then m else swap_ends len m str (str + len - 1))

-- `end` and `shifted` move down together, `k` times.
unfoldable pub shift_up : Mem → ℕ → ℕ → ℕ → Mem
shift_up m end shifted zero = m
shift_up m end shifted (suc k) = shift_up (store m shifted (m end)) (end - 1) (shifted - 1) k

-- The characters of a string without the byte 0
unfoldable pub copy_chars : ℕ → Mem → ℕ → ℕ → Option Mem
copy_chars zero m end prefix = none
copy_chars (suc k) m end prefix = elim (m prefix == 0) [
  | true ↦ some m
  | false ↦ copy_chars k (store m end (m prefix)) (end + 1) (prefix + 1)
]

unfoldable pub prepend : ℕ → Mem → ℕ → ℕ → Option Mem
prepend k m str prefix = do
  shift ← strlen k m prefix
  len ← strlen k m str
  copy_chars k (shift_up m (str + len) (str + len + shift) (len + 1)) str prefix

unfoldable pub ljust : ℕ → Mem → ℕ → ℕ → ℕ → Option Mem
ljust k m str n pad_char = do
  length ← strlen k m str
  let pad = n - length
  some (store (memset m (str + length) pad_char pad) (str + length + pad) 0)

unfoldable pub rjust : ℕ → Mem → ℕ → ℕ → ℕ → Option Mem
rjust k m str n pad_char = do
  length ← strlen k m str
  let pad = n - length
  some (
      if ltb length n
      then memset (shift_up m (str + length) (str + length + pad) (length + 1)) str pad_char pad
      else m)
