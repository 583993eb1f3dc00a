-- ===== src/Vm/Collections.antt =====
-- vm/vm.go: arrays, maps, strings and structs: `buildArray`, `buildHash`, `executeIndexExpression` and
-- `executeIndexAssignment`. A text is ASCII, a character to a byte.
use Prim.Native.Char.{code}
use sydney.Base.{
  ℕ, zero, suc, ◌+◌, ◌-◌, String, List, [], ◌∷◌, Bool, true, false, Option, none, some, ◌||◌,
  length, get_elem?, set, drop, take, ltb, ◌==◌, str_eq, if◌then◌else◌, Result, ok, err, panic,
  ◌>>=◌, or_panic,
}
use sydney.Scheduler.{update}
use sydney.Machine.{Object, integer, string, boolean, byte_value, other}
use sydney.Vm.State.{
  Vm, Cell, null, current_fiber, push_value, allocate, cell_of, array_cell, elements_cell,
  hash_cell, option_cell,
}

-- The bytes of a text, and a part of it.
abbrev pub byte_at : String → ℕ → Option ℕ
byte_at String.[] i = none
byte_at (String.◌∷◌ c s) zero = some (code c)
byte_at (String.◌∷◌ c s) (suc i) = byte_at s i

abbrev pub text_length : String → ℕ
text_length String.[] = 0
text_length (String.◌∷◌ c s) = suc (text_length s)

abbrev pub text_drop : ℕ → String → String
text_drop zero s = s
text_drop (suc n) String.[] = ""
text_drop (suc n) (String.◌∷◌ c s) = text_drop n s

abbrev pub text_take : ℕ → String → String
text_take zero s = ""
text_take (suc n) String.[] = ""
text_take (suc n) (String.◌∷◌ c s) = String.◌∷◌ c (text_take n s)

abbrev same_bool : Bool → Bool → Bool
same_bool true b = b
same_bool false true = false
same_bool false false = true

-- The end of a slice: -1 is the length.
abbrev end_or : ℕ → ℕ → ℕ
end_or count n = if n == 18446744073709551615 then count else n

module _ {F : Type 0} where
  -- The elements of an array.
  abbrev pub elements_in : Cell F → List (Object F)
  elements_in (elements_cell xs) = xs
  elements_in _ = []

  unfoldable pub elements_of : ℕ → Vm F → List (Object F)
  elements_of p vm = elements_in (vm.cells p)

  unfoldable pub set_cell : ℕ → Cell F → Vm F → Vm F
  set_cell p cell vm = record vm { cells = update vm.cells p cell }

  -- A new array with elements of its own: `&object.Array{Elements: elements}`.
  unfoldable pub new_array : List (Object F) → Vm F → Object F × Vm F
  unfolding allocate set_cell
  new_array xs vm =
      let (elements, vm') = allocate "elements" (elements_cell xs) vm in
      allocate "Array" (array_cell vm.next_cell 0 (length xs)) vm'

  -- `executeArrayIndex`: an index is a word, and a negative one is far above every length.
  unfoldable pub array_index : Cell F → ℕ → Vm F → Result (Vm F)
  unfolding elements_of
  array_index (array_cell p from count) i vm =
      if ltb i count
      then (do v ← or_panic (get_elem? (elements_of p vm) (from + i)); push_value v vm)
      else err "array index out of bounds"
  array_index _ i vm = panic

  -- `executeStringIndex`
  unfoldable pub string_index : String → ℕ → Vm F → Result (Vm F)
  string_index s i vm = elim (byte_at s i) [
    | none ↦ push_value null vm
    | some b ↦ push_value (byte_value b) vm
  ]

  -- `HashKey`, of the types that have one: the keys are equal if the types and the values are.
  abbrev is_hashable : Object F → Bool
  is_hashable (integer n) = true
  is_hashable (string s) = true
  is_hashable (boolean p b) = true
  is_hashable _ = false

  unfoldable pub same_key : Object F → Object F → Bool
  same_key (integer a) (integer b) = a == b
  same_key (string a) (string b) = str_eq a b
  same_key (boolean p a) (boolean q b) = same_bool a b
  same_key _ _ = false

  unfoldable pub find_pair : Object F → List (Object F × Object F) → Option (Object F)
  unfolding same_key
  find_pair key [] = none
  find_pair key ((k, v) ∷ ps) = if same_key k key then some v else find_pair key ps

  unfoldable pub put_pair :
      Object F → Object F → List (Object F × Object F) → List (Object F × Object F)
  unfolding same_key
  put_pair key v [] = (key, v) ∷ []
  put_pair key v ((k, w) ∷ ps) =
      if same_key k key then (key, v) ∷ ps else (k, w) ∷ put_pair key v ps

  abbrev found_cell : Option (Object F) → Cell F
  found_cell none = option_cell false null
  found_cell (some v) = option_cell true v

  -- `executeHashIndex`: an option.
  unfoldable pub hash_index : Cell F → Object F → Vm F → Result (Vm F)
  unfolding find_pair allocate
  hash_index (hash_cell ps) key vm =
      if is_hashable key
      then (let (found, vm') = allocate "Option" (found_cell (find_pair key ps)) vm in
          push_value found vm')
      else err "unusable as hash key"
  hash_index _ key vm = panic

  -- `executeIndexExpression`: the index of an array and of a string is asserted to be an integer.
  unfoldable pub index_by_type : Cell F → Object F → Object F → Vm F → Result (Vm F)
  unfolding array_index string_index hash_index
  index_by_type (array_cell p from count) left (integer i) vm =
      array_index (array_cell p from count) i vm
  index_by_type (array_cell p from count) left index vm = panic
  index_by_type (hash_cell ps) left index vm = hash_index (hash_cell ps) index vm
  index_by_type cell (string s) (integer i) vm = string_index s i vm
  index_by_type cell (string s) index vm = panic
  index_by_type cell left index vm = err "index operator not supported"

  unfoldable pub execute_index_expression : Object F → Object F → Vm F → Result (Vm F)
  unfolding index_by_type cell_of
  execute_index_expression left index vm = index_by_type (cell_of left vm) left index vm

  -- `executeIndexAssignment`: an array takes an index up to its length, where the write is out of range.
  unfoldable pub assign_element : ℕ → ℕ → ℕ → ℕ → Object F → Vm F → Result (Vm F)
  unfolding elements_of set_cell
  assign_element p from count i value vm =
      if ltb count i
      then err "array index out of bounds"
      else if ltb i count
      then ok (set_cell p (elements_cell (set (elements_of p vm) (from + i) value)) vm)
      else panic

  unfoldable pub assign_by_type : Cell F → Object F → Object F → Object F → Vm F → Result (Vm F)
  unfolding assign_element put_pair set_cell
  assign_by_type (array_cell p from count) collection (integer i) value vm =
      assign_element p from count i value vm
  assign_by_type (array_cell p from count) collection index value vm =
      err "index must be an integer"
  assign_by_type (hash_cell ps) (other name p) index value vm =
      if is_hashable index
      then ok (set_cell p (hash_cell (put_pair index value ps)) vm)
      else err "unusable as hash key"
  assign_by_type cell collection index value vm = err "unusable as index assignment"

  unfoldable pub execute_index_assignment : Object F → Object F → Object F → Vm F → Result (Vm F)
  unfolding assign_by_type cell_of
  execute_index_assignment collection index value vm =
      assign_by_type (cell_of collection vm) collection index value vm

  -- `buildHash`, of keys and values in turn.
  unfoldable pub build_pairs :
      List (Object F) → List (Object F × Object F) → Result (List (Object F × Object F))
  unfolding put_pair
  build_pairs [] ps = ok ps
  build_pairs (k ∷ []) ps = panic
  build_pairs (k ∷ v ∷ xs) ps =
      let rest = build_pairs xs (put_pair k v ps) in
      if is_hashable k then rest else err "unusable as hash key"

  -- The objects on top of the stack, lowest first: `stack()[sp-count:sp]`.
  unfoldable pub top_objects : ℕ → Vm F → Result (List (Object F))
  top_objects count vm =
      let f = current_fiber vm in
      if ltb f.sp count then panic else ok (take count (drop (f.sp - count) f.stack))

  -- `OpSlice`, of what it has popped. An array may be cut up to its capacity, the elements that its
  -- cell has from its start on.
  unfoldable pub slice_object : Cell F → Object F → ℕ → ℕ → Vm F → Result (Vm F)
  unfolding allocate elements_of
  slice_object (array_cell p from count) obj start end vm =
      let to = end_or count end in
      if ltb (length (elements_of p vm) - from) to || ltb to start
      then panic
      else (let (sliced, vm') = allocate "Array" (array_cell p (from + start) (to - start)) vm in
          push_value sliced vm')
  slice_object cell (string s) start end vm =
      let to = end_or (text_length s) end in
      if ltb (text_length s) to || ltb to start
      then panic
      else push_value (string (text_take (to - start) (text_drop start s))) vm
  slice_object cell obj start end vm = ok vm
