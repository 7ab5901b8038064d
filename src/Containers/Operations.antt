-- ===== src/Containers/Operations.antt =====
-- Each operation on containers, where it is allowed, is defined and keeps the ownership.
use open62541_nodeset_export.Prelude.{
  Bool, Bool-cases, Option-cases, ap, arith, false, if◌then◌else◌, inl, inr, none, refl, some,
  subst, suc, sym, true, ℕ, ◌==◌, ◌∙◌, ◌∷◌, ◌≡◌, ◌≢◌,
}
use open62541_nodeset_export.Containers.{
  Memory, Operation, Slots, UaTypesContainer, World, construct_copy_of, container_at, copy_assign,
  copy_construct, copy_make, copy_write, destroy, destruct, emptied, emptied_at, make, move_assign,
  move_construct, move_make, move_write, put_container, read_object, run_operation, set_slot,
  slot_at, ua_delete, ua_new,
}
use open62541_nodeset_export.Containers.Heap.{find_cell-live, hit, hit_refl}
use open62541_nodeset_export.Containers.Ownership.{
  IsAllowed, IsContainer, IsOwned, IsStrong, Owned, container_cases, fresh-IsOwned, holding_cases,
  moved-IsOwned, nothing_there, release-IsOwned,
}
use open62541_nodeset_export.Containers.Slots.{
  All-slot_at, IsSlot-set_slot, held-set_slot, holds, set_slot-set_slot, slot_at-IsSlot,
  slot_at-same, slot_at-set_slot,
}
use open62541_nodeset_export.Status.{
  Outcome, fails, ok, ok-injective, or_throw, throws, undefined, ◌>>=◌,
}

bind-ok :
    {B C : Type 0} (o : Outcome B) (b : B) (f : B → Outcome C) (z : Outcome C)
    → o ≡ ok b
    → f b ≡ z
    → o >>= f ≡ z
bind-ok (ok a) b f z e h = ap f (ok-injective e) ∙ h
bind-ok (fails r) b f z e h = cc
bind-ok (throws x) b f z e h = cc

if_false : {B : Type 0} (b : Bool) (x y : B) → b ≡ false → (if b then x else y) ≡ y
if_false true x y e = cc
if_false false x y e = refl

if_true : {B : Type 0} (b : Bool) (x y : B) → b ≡ true → (if b then x else y) ≡ x
if_true true x y e = refl
if_true false x y e = cc

module _ {A : Type 0} where
  at_slot :
      (w : World A) (i : ℕ) (c : UaTypesContainer)
      → slot_at w.slots i ≡ some c
      → container_at w i ≡ ok c
  at_slot w i c e = ap (λ d. or_throw d undefined) e

  -- What a container holds can be read.
  reading :
      (m : Memory A) (slots : Slots) (j p : ℕ) (obj : UaTypesContainer)
      → IsOwned m.cells m.next slots
      → slot_at slots j ≡ some obj
      → obj.object ≡ some p
      → (v : A) × (read_object obj.object m ≡ ok v)
  reading m slots j p obj (same, single, old, strong) filled e =
      let k = held-set_slot p j none slots (slot_at-IsSlot j slots obj filled) in
      let f : holds p (slot_at slots j) ≡ holds p (some obj) = ap (holds p) filled in
      let n : holds p (some obj) ≡ hit p p = rw e refl in
      let o = hit_refl p in
      let s = same p in
      let (v, cell) = find_cell-live p m.cells (omega (arith, k, f, n, o, s)) in
      (v, ap (λ o. read_object o m) e ∙ ap (λ o. or_throw o undefined) cell)

  destruct-eq :
      (c : UaTypesContainer) (m : Memory A)
      → IsStrong (some c)
      → destruct c m ≡ ua_delete c.object c.ua_type m
  unfolding destruct
  destruct-eq c m (owner, empty) = elim (Option-cases c.object) [
    | inl e ↦ let t = empty e in rw (e, t, destruct) refl
    | inr (p, e) ↦ rw (e, owner, destruct) refl
  ]

  make-Owned :
      (i : ℕ) (v : A) (t : ℕ) (w : World A)
      → Owned w
      → IsAllowed {A = A} (make i v t) w.slots
      → (w' : World A) × (run_operation (make i v t) w ≡ ok w') × Owned w'
  unfolding run_operation construct_copy_of
  make-Owned i v t w owned (here, free) = (
    record {
      memory = ua_new v w.memory;
      slots =
          set_slot i
            (some (record { object = some w.memory.next; ua_type = t; is_weak_copy = false }))
            w.slots;
    },
    refl,
    fresh-IsOwned w.memory.cells w.memory.next i v _ w.slots owned here (λ q. ap (holds q) free)
        refl refl,
  )

  copy_make-Owned :
      (i j : ℕ) (w : World A)
      → Owned w
      → IsAllowed {A = A} (copy_make i j) w.slots
      → (w' : World A) × (run_operation (copy_make i j) w ≡ ok w') × Owned w'
  unfolding run_operation copy_construct
  copy_make-Owned i j w owned (here, free, source) =
      let (obj, filled, (p, e)) = holding_cases (slot_at w.slots j) source in
      let (v, read) = reading w.memory w.slots j p obj owned filled e in
      (
        record {
          memory = ua_new v w.memory;
          slots =
              set_slot i
                (some (record {
                  object = some w.memory.next;
                  ua_type = obj.ua_type;
                  is_weak_copy = false;
                }))
                w.slots;
        },
        bind-ok (container_at w j) obj _ _ (at_slot w j obj filled)
            (ap (put_container i w) (bind-ok (read_object obj.object w.memory) v _ _ read refl)),
        fresh-IsOwned w.memory.cells w.memory.next i v _ w.slots owned here (λ q. ap (holds q) free)
            refl refl,
      )

  move_make-Owned :
      (i j : ℕ) (w : World A)
      → Owned w
      → IsAllowed {A = A} (move_make i j) w.slots
      → (w' : World A) × (run_operation (move_make i j) w ≡ ok w') × Owned w'
  unfolding run_operation move_construct move_assign
  move_make-Owned i j w owned (here, free, source) =
      let (obj, filled) = container_cases (slot_at w.slots j) source in
      (
        record {
          memory = w.memory;
          slots =
              set_slot i
                (some (record { object = obj.object; ua_type = obj.ua_type; is_weak_copy = false }))
                (set_slot j (some (emptied obj)) w.slots);
        },
        bind-ok (container_at w j) obj _ _ (at_slot w j obj filled) refl,
        moved-IsOwned w.memory.cells w.memory.next i j w.slots _ obj
            (λ same.
              let bad : some obj ≡ none = sym filled ∙ ap (slot_at w.slots) (sym same) ∙ free in cc)
            here filled owned.3
            (nothing_there w.memory.cells w.memory.next i w.slots owned here free) refl,
      )

  destroy-Owned :
      (i : ℕ) (w : World A)
      → Owned w
      → IsContainer (slot_at w.slots i)
      → (w' : World A) × (run_operation (destroy i) w ≡ ok w') × Owned w'
  unfolding run_operation
  destroy-Owned i w owned there =
      let (self, filled) = container_cases (slot_at w.slots i) there in
      let (m1, (deleted, same_next, left)) = release-IsOwned w.memory i w.slots self owned filled in
      let strong = All-slot_at IsStrong i w.slots self owned.3 filled in
      (
        record { memory = m1; slots = set_slot i none w.slots },
        bind-ok (container_at w i) self _ _ (at_slot w i self filled) (
            bind-ok (destruct self w.memory) m1 _ _ (destruct-eq self w.memory strong ∙ deleted)
              refl),
        left,
      )

  copy_write-Owned :
      (i j : ℕ) (w : World A)
      → Owned w
      → IsAllowed {A = A} (copy_write i j) w.slots
      → (w' : World A) × (run_operation (copy_write i j) w ≡ ok w') × Owned w'
  unfolding run_operation copy_assign
  copy_write-Owned i j w owned (there, source) =
      let (self, filled) = container_cases (slot_at w.slots i) there in
      let (obj, full, (p, e)) = holding_cases (slot_at w.slots j) source in
      elim (Bool-cases (i == j)) [
        | inl b ↦ (
          w,
          bind-ok (container_at w i) self _ _ (at_slot w i self filled)
              (bind-ok (container_at w j) obj _ _ (at_slot w j obj full) (if_true (i == j) _ _ b)),
          owned,
        )
        | inr b ↦
            let apart : i ≢ j = λ same. ground arith in
            let here = slot_at-IsSlot i w.slots self filled in
            let strong = All-slot_at IsStrong i w.slots self owned.3 filled in
            let (m1, (deleted, same_next, left)) =
              release-IsOwned w.memory i w.slots self owned filled in
            let (v, read) =
              reading m1 (set_slot i none w.slots) j p obj left
                (slot_at-set_slot i j none w.slots apart ∙ full) e in
            let c : UaTypesContainer = record self {
              object = some m1.next;
              ua_type = obj.ua_type;
            } in
            (
              record { memory = ua_new v m1; slots = set_slot i (some c) w.slots },
              bind-ok (container_at w i) self _ _ (at_slot w i self filled) (
                  bind-ok (container_at w j) obj _ _ (at_slot w j obj full) (
                    if_false (i == j) _ _ b
                    ∙ ap (put_container i w) (
                        bind-ok (ua_delete self.object self.ua_type w.memory) m1 _ _ deleted
                          (bind-ok (read_object obj.object m1) v _ _ read refl)))),
              subst (IsOwned ((m1.next, v) ∷ m1.cells) (suc m1.next))
                  (set_slot-set_slot i (some c) none w.slots)
                  (fresh-IsOwned m1.cells m1.next i v c (set_slot i none w.slots) left
                    (IsSlot-set_slot i i none w.slots here)
                    (λ q. ap (holds q) (slot_at-same i none w.slots here)) refl strong.0),
            )
      ]

  move_write-Owned :
      (i j : ℕ) (w : World A)
      → Owned w
      → IsAllowed {A = A} (move_write i j) w.slots
      → (w' : World A) × (run_operation (move_write i j) w ≡ ok w') × Owned w'
  unfolding run_operation move_assign
  move_write-Owned i j w owned (there, source) =
      let (self, filled) = container_cases (slot_at w.slots i) there in
      let (obj, full) = container_cases (slot_at w.slots j) source in
      elim (Bool-cases (i == j)) [
        | inl b ↦ (
          w,
          bind-ok (container_at w i) self _ _ (at_slot w i self filled)
              (bind-ok (container_at w j) obj _ _ (at_slot w j obj full) (if_true (i == j) _ _ b)),
          owned,
        )
        | inr b ↦
            let apart : i ≢ j = λ same. ground arith in
            let here = slot_at-IsSlot i w.slots self filled in
            let strong = All-slot_at IsStrong i w.slots self owned.3 filled in
            let (m1, (deleted, same_next, left)) =
              release-IsOwned w.memory i w.slots self owned filled in
            let c : UaTypesContainer = record self { object = obj.object; ua_type = obj.ua_type } in
            (
              record {
                memory = m1;
                slots = set_slot i (some c) (set_slot j (some (emptied obj)) w.slots);
              },
              bind-ok (container_at w i) self _ _ (at_slot w i self filled) (
                  bind-ok (container_at w j) obj _ _ (at_slot w j obj full) (
                    if_false (i == j) _ _ b
                    ∙ ap (put_container i (emptied_at j obj w)) (
                        bind-ok (ua_delete self.object self.ua_type w.memory) m1 _ _ deleted
                          refl))),
              moved-IsOwned m1.cells m1.next i j w.slots c obj apart here full owned.3 left
                  (ap (λ k. record obj { is_weak_copy = k }) strong.0),
            )
      ]

  pub run_operation-Owned :
      (op : Operation A) (w : World A)
      → Owned w
      → IsAllowed op w.slots
      → (w' : World A) × (run_operation op w ≡ ok w') × Owned w'
  run_operation-Owned (make i v t) w owned h = make-Owned i v t w owned h
  run_operation-Owned (copy_make i j) w owned h = copy_make-Owned i j w owned h
  run_operation-Owned (move_make i j) w owned h = move_make-Owned i j w owned h
  run_operation-Owned (copy_write i j) w owned h = copy_write-Owned i j w owned h
  run_operation-Owned (move_write i j) w owned h = move_write-Owned i j w owned h
  run_operation-Owned (destroy i) w owned h = destroy-Owned i w owned h
