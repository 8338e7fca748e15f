-- ===== src/Base/Layout.antt =====
-- The layout of C structs as GCC has it on x86-64: natural alignment, or none in a packed struct, and
-- bit fields from the lowest bit on, none of them across a border of its type.
use Prim.Native.Char.{code}
use Prim.Native.String.{String}
use mksd_old_archive.Base.{
  ℕ, ◌+◌, ◌-◌, ◌*◌, ◌/◌, ◌%◌, ◌^◌, Bool, true, false, ◌&&◌, Option, none, some, List, [], ◌∷◌, ltb,
  ◌==◌, if◌then◌else◌, Memory, load,
}

-- `array name bytes count` has elements of `bytes`, `bit_field name bytes width` a type of `bytes`, and
-- `nested name bytes align count` is an array of structs.
pub data Field : Type 0 where
  scalar : (name : String) (bytes : ℕ) → Field
  array : (name : String) (bytes count : ℕ) → Field
  bit_field : (name : String) (bytes width : ℕ) → Field
  nested : (name : String) (bytes align count : ℕ) → Field

pub record Struct : Type 0 where
  pub packed : Bool
  pub fields : List Field

abbrev same_name : String → String → Bool
same_name String.[] String.[] = true
same_name String.[] (String.◌∷◌ d t) = false
same_name (String.◌∷◌ c s) String.[] = false
same_name (String.◌∷◌ c s) (String.◌∷◌ d t) = (code c == code d) && same_name s t

abbrev name_of : Field → String
name_of (Field.scalar name bytes) = name
name_of (Field.array name bytes count) = name
name_of (Field.bit_field name bytes width) = name
name_of (Field.nested name bytes align count) = name

abbrev align_of : Bool → Field → ℕ
align_of true f = 1
align_of false (Field.scalar name bytes) = bytes
align_of false (Field.array name bytes count) = bytes
align_of false (Field.bit_field name bytes width) = bytes
align_of false (Field.nested name bytes align count) = align

abbrev bits_of : Field → ℕ
bits_of (Field.scalar name bytes) = 8 * bytes
bits_of (Field.array name bytes count) = 8 * (bytes * count)
bits_of (Field.bit_field name bytes width) = width
bits_of (Field.nested name bytes align count) = 8 * (bytes * count)

-- The least multiple of `a` from `n` on.
abbrev align_up : ℕ → ℕ → ℕ
align_up a n = (n + a - 1) / a * a

-- The first bit of a field, where the fields in front of it end at bit `pos`.
abbrev start_of : Bool → Field → ℕ → ℕ
start_of packed (Field.bit_field name bytes width) pos =
    if pos / (8 * bytes) == (pos + width - 1) / (8 * bytes) then pos else align_up (8 * bytes) pos
start_of packed f pos = align_up (8 * align_of packed f) pos

-- The first bit of the field `name`, and the field.
abbrev find_field : Bool → List Field → ℕ → String → Option (ℕ × Field)
find_field packed [] pos name = none
find_field packed (f ∷ fs) pos name =
    let start = start_of packed f pos in
    let rest = find_field packed fs (start + bits_of f) name in
    if same_name name (name_of f) then some (start, f) else rest

abbrev end_of : Bool → List Field → ℕ → ℕ
end_of packed [] pos = pos
end_of packed (f ∷ fs) pos = end_of packed fs (start_of packed f pos + bits_of f)

abbrev greatest_align : Bool → List Field → ℕ
greatest_align packed [] = 1
greatest_align packed (f ∷ fs) =
    let a = align_of packed f in let b = greatest_align packed fs in if ltb a b then b else a

abbrev pub align : Struct → ℕ
align s = greatest_align s.packed s.fields

abbrev pub sizeof : Struct → ℕ
sizeof s = align_up (8 * align s) (end_of s.packed s.fields 0) / 8

abbrev offset_in : Option (ℕ × Field) → ℕ
offset_in none = 0
offset_in (some (start, f)) = start / 8

abbrev pub offsetof : Struct → String → ℕ
offsetof s name = offset_in (find_field s.packed s.fields 0 name)

abbrev value_in : Option (ℕ × Field) → Memory → ℕ → ℕ
value_in none m p = 0
value_in (some (start, Field.scalar name bytes)) m p = load bytes m (p + start / 8)
value_in (some (start, Field.array name bytes count)) m p = p + start / 8
value_in (some (start, Field.bit_field name bytes width)) m p =
    load bytes m (p + start / (8 * bytes) * bytes) / 2 ^ (start % (8 * bytes)) % 2 ^ width
value_in (some (start, Field.nested name bytes align count)) m p = p + start / 8

-- `p->name`, which is an address if the field is an array or a struct.
abbrev pub member : Struct → String → Memory → ℕ → ℕ
member s name m p = value_in (find_field s.packed s.fields 0 name) m p
