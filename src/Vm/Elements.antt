-- ===== src/Vm/Elements.antt =====
-- Writing and reading the elements of arrays that share them (vm/vm.go, `executeIndexAssignment` and
-- `executeIndexExpression`).
use sydney.Base.{
  ℕ, ◌+◌, ◌<◌, ◌≡◌, ◌≢◌, refl, sym, ap, ◌∙◌, String, List, some, length, set, get_elem?,
  get_elem?-set_self, ltb, true, false, ok, arith,
}
use sydney.Scheduler.{update}
use sydney.Machine.{Object, integer, other}
use sydney.Vm.State.{Vm, push_value, cell_of, array_cell, elements_cell}
use sydney.Vm.Collections.{
  elements_in, elements_of, set_cell, array_index, index_by_type, assign_element, assign_by_type,
  execute_index_expression, execute_index_assignment,
}
use sydney.Vm.Shows.{update_self}

update_ne {ℓ} : {A : Type ℓ} (f : ℕ → A) (p q : ℕ) (a : A) → q ≢ p → update f p a q ≡ f q
update_ne f p q a h = ground arith

module _ {F : Type 0} where
  assign-eq :
      (name : String) (p q from count i : ℕ) (value : Object F) (vm : Vm F)
      → vm.cells p ≡ array_cell q from count
      → i < count
      → execute_index_assignment (other name p) (integer i) value vm
        ≡ ok (set_cell q (elements_cell (set (elements_of q vm) (from + i) value)) vm)
  unfolding execute_index_assignment cell_of
  assign-eq name p q from count i value vm cell inside =
      let first : ltb count i ≡ false = ground (arith, inside) in
      let second : ltb i count ≡ true = ground (arith, inside) in
      rw (cell, assign_by_type, assign_element, first, second) refl

  read-eq :
      (name : String) (p q from count j : ℕ) (v : Object F) (vm : Vm F)
      → vm.cells p ≡ array_cell q from count
      → j < count
      → get_elem? (elements_of q vm) (from + j) ≡ some v
      → execute_index_expression (other name p) (integer j) vm ≡ push_value v vm
  unfolding execute_index_expression cell_of
  read-eq name p q from count j v vm cell inside there =
      let test : ltb j count ≡ true = ground (arith, inside) in
      rw (cell, index_by_type, array_index, test, there) refl

  elements_of-set_cell :
      (q : ℕ) (xs : List (Object F)) (vm : Vm F)
      → elements_of q (set_cell q (elements_cell xs) vm) ≡ xs
  unfolding elements_of set_cell
  elements_of-set_cell q xs vm = ap elements_in (update_self vm.cells q (elements_cell xs))

  -- An assignment to an element of an array within its length succeeds, and through every array that
  -- shares the element the index expression then pushes the value.
  pub index_expression-assignment :
      (name name2 : String) (p p2 q from from2 count count2 i j : ℕ) (value : Object F) (vm : Vm F)
      → vm.cells p ≡ array_cell q from count
      → vm.cells p2 ≡ array_cell q from2 count2
      → p2 ≢ q
      → i < count
      → j < count2
      → from + i ≡ from2 + j
      → from + i < length (elements_of q vm)
      → (vm' : Vm F) × (execute_index_assignment (other name p) (integer i) value vm ≡ ok vm')
        × (execute_index_expression (other name2 p2) (integer j) vm' ≡ push_value value vm')
  unfolding elements_of set_cell
  index_expression-assignment name name2 p p2 q from from2 count count2 i j value vm cell cell2
        apart inside inside2 same room =
      let new = set (elements_of q vm) (from + i) value in
      let vm' = set_cell q (elements_cell new) vm in
      (
        vm',
        assign-eq name p q from count i value vm cell inside,
        read-eq name2 p2 q from2 count2 j value vm'
            (update_ne vm.cells q p2 (elements_cell new) apart ∙ cell2) inside2
            (ap (λ xs. get_elem? xs (from2 + j)) (elements_of-set_cell q new vm)
              ∙ ap (get_elem? new) (sym same)
              ∙ get_elem?-set_self (elements_of q vm) (from + i) value room),
      )
