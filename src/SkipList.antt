-- ===== src/SkipList.antt =====
-- skip-list/src: the list of nodes behind raw pointers, over a heap. `none` stands for undefined
-- behaviour: a null or freed pointer is read, or an index is out of range.
pub mod Cells
pub mod Search
pub mod Write
pub mod Spec
pub mod Sorted
pub mod Invariant
pub mod Lookup
pub mod Link
pub mod Insert
pub mod Remove
pub mod Replace
pub mod Clear
pub mod Clone
pub mod AsMap
mod Tests
use mirdb.Prelude.{
  ℕ, zero, suc, ◌+◌, ◌-◌, ◌≤◌, ◌<◌, Bool, true, false, Option, none, some, List, [], ◌∷◌, ◌++◌,
  length, get_elem?, ltb, ◌==◌, max, if◌then◌else◌, Slice, bytes_eq, bytes_lt, bind,
}

-- A pointer, none where it is null.
abbrev pub Ptr : Type 0
Ptr = Option ℕ

pub record SkipListNode : Type 0 where
  pub nexts : List Ptr
  pub key : Slice
  pub value : Slice

abbrev pub Heap : Type 0
Heap = ℕ → Option SkipListNode

-- `SkipList<Slice, Slice>`; the heap is free from `top` on.
pub record SkipList : Type 0 where
  pub heap : Heap
  pub top : ℕ
  pub head : ℕ
  pub length : ℕ
  pub height : ℕ
  pub max_height : ℕ

abbrev pub set_node : Heap → ℕ → Option SkipListNode → Heap
set_node heap p node q = if q == p then node else heap q

abbrev pub set_at : {A : Type 0} → List A → ℕ → A → List A
set_at [] i v = []
set_at (x ∷ xs) zero v = v ∷ xs
set_at (x ∷ xs) (suc i) v = x ∷ set_at xs i v

abbrev pub repeat : {A : Type 0} → ℕ → A → List A
repeat zero x = []
repeat (suc n) x = x ∷ repeat n x

-- `allocate`
abbrev pub new_node : Slice → Slice → ℕ → SkipListNode
new_node key value height = record { nexts = repeat (height + 1) none; key = key; value = value }

abbrev pub node_height : SkipListNode → ℕ
node_height node = length node.nexts - 1

-- `next`
abbrev pub next : SkipListNode → ℕ → Ptr
next node height = elim (get_elem? node.nexts height) [ none ↦ none | some p ↦ p ]

-- `nexts_.get_unchecked_mut(i) = p`
unfoldable pub write_next : Heap → ℕ → ℕ → Ptr → Option Heap
write_next heap u i p = bind (heap u) λ node.
    if ltb i (length node.nexts)
    then some (
        set_node heap u
          (some (record { nexts = set_at node.nexts i p; key = node.key; value = node.value })))
    else none

-- `new`; what the key and the value of the head are is not initialised.
abbrev pub new : Slice × Slice → Heap → ℕ → ℕ → SkipList
new junk heap top max_height = record {
  heap = set_node heap top (some (new_node junk.0 junk.1 max_height));
  top = top + 1;
  head = top;
  length = 0;
  height = 0;
  max_height = max_height;
}

-- The walk on a level, as long as the next key is below `key`.
unfoldable pub walk : ℕ → Heap → Slice → ℕ → ℕ → Option ℕ
walk zero heap key i p = none
walk (suc fuel) heap key i p = bind (heap p) λ node. elim (next node i) [
  | none ↦ some p
  | some q ↦
      bind (heap q)
        λ n. elim (bytes_lt n.key key) [ true ↦ walk fuel heap key i q | false ↦ some p ]
]

-- The walks on the levels `i`, ..., 0.
unfoldable pub descend : ℕ → Heap → Slice → ℕ → ℕ → Option ℕ
unfolding walk
descend fuel heap key zero p = walk fuel heap key 0 p
descend fuel heap key (suc i) p = bind (walk fuel heap key (suc i) p) λ q. descend fuel heap key i q

-- The same, with where each walk has ended, from level 0 on.
unfoldable pub descend_updates : ℕ → Heap → Slice → ℕ → ℕ → Option (ℕ × List ℕ)
unfolding walk
descend_updates fuel heap key zero p = bind (walk fuel heap key 0 p) λ q. some (q, q ∷ [])
descend_updates fuel heap key (suc i) p =
    bind (walk fuel heap key (suc i) p)
      λ q. bind (descend_updates fuel heap key i q) λ r. some (r.0, r.1 ++ (q ∷ []))

unfoldable pub get_lower_bound : Slice → SkipList → Option ℕ
unfolding descend
get_lower_bound key l = descend (l.length + 1) l.heap key l.height l.head

unfoldable pub get_lower_bound_and_updates : Slice → SkipList → Option (ℕ × List ℕ)
unfolding descend_updates
get_lower_bound_and_updates key l =
    bind (descend_updates (l.length + 1) l.heap key l.height l.head)
      λ r. some (r.0, r.1 ++ repeat (l.max_height - l.height) l.head)

-- The node behind a lower bound.
unfoldable pub next_node : Heap → ℕ → Option (Option (ℕ × SkipListNode))
next_node heap p =
    bind (heap p) λ node. elim (next node 0) [
      | none ↦ some none
      | some q ↦ bind (heap q) λ n. some (some (q, n))
    ]

unfoldable pub get : Slice → SkipList → Option (Option Slice)
unfolding get_lower_bound next_node
get key l = bind (get_lower_bound key l) λ p. bind (next_node l.heap p) λ found. elim found [
  | none ↦ some none
  | some n ↦ some (if bytes_eq n.1.key key then some n.1.value else none)
]

-- The loop of `insert` over the levels `i`, ..., of which `rounds` are left.
unfoldable pub link : ℕ → ℕ → List ℕ → ℕ → Heap → Option Heap
unfolding write_next
link zero i updates node_ptr heap = some heap
link (suc rounds) i updates node_ptr heap = bind (get_elem? updates i) λ u. bind (heap u) λ update.
    bind (get_elem? update.nexts i) λ p. bind (write_next heap node_ptr i p) λ heap.
      bind (write_next heap u i (some node_ptr)) λ heap. link rounds (suc i) updates node_ptr heap

abbrev pub with_heap : SkipList → Heap → SkipList
with_heap l heap = record {
  heap = heap;
  top = l.top;
  head = l.head;
  length = l.length;
  height = l.height;
  max_height = l.max_height;
}

-- `replace_value` on the node
abbrev pub replaced : Heap → ℕ → SkipListNode → Slice → Heap
replaced heap p node value =
    set_node heap p (some (record { nexts = node.nexts; key = node.key; value = value }))

abbrev pub grown : SkipList → ℕ → Heap → SkipList
grown l height heap = record {
  heap = heap;
  top = l.top + 1;
  head = l.head;
  length = l.length + 1;
  height = max l.height height;
  max_height = l.max_height;
}

-- The part of `insert` that adds a node.
unfoldable pub insert_node : ℕ → Slice → Slice → List ℕ → SkipList → Option SkipList
unfolding link
insert_node height key value updates l =
    bind
      (link (height + 1) 0 updates l.top (set_node l.heap l.top (some (new_node key value height))))
      λ heap. some (grown l height heap)

-- `insert`, for the height that the generator gives.
unfoldable pub insert : ℕ → Slice → Slice → SkipList → Option (SkipList × Option Slice)
unfolding get_lower_bound_and_updates next_node insert_node
insert height key value l = bind (get_lower_bound_and_updates key l) λ r.
    bind (next_node l.heap r.0) λ found. elim found [
      | none ↦ bind (insert_node height key value r.1 l) λ l'. some (l', none)
      | some n ↦ elim (bytes_eq n.1.key key) [
        | true ↦ some (with_heap l (replaced l.heap n.0 n.1 value), some n.1.value)
        | false ↦ bind (insert_node height key value r.1 l) λ l'. some (l', none)
      ]
    ]

abbrev pub shrunk : SkipList → Heap → SkipList
shrunk l heap = record {
  heap = heap;
  top = l.top;
  head = l.head;
  length = l.length - 1;
  height = l.height;
  max_height = l.max_height;
}

-- The loop of `remove` over the levels.
unfoldable pub unlink : ℕ → ℕ → List ℕ → SkipListNode → Heap → Option Heap
unfolding write_next
unlink zero i updates node heap = some heap
unlink (suc rounds) i updates node heap = bind (get_elem? updates i) λ u.
    bind (get_elem? node.nexts i)
      λ p. bind (write_next heap u i p) λ heap. unlink rounds (suc i) updates node heap

-- `remove`. The value of the node is replaced by one that is not initialised, which `free` drops:
-- `uninit_ok` says whether the type of values allows this; that of slices does not.
unfoldable pub remove : Bool → Slice → SkipList → Option (SkipList × Option Slice)
unfolding get_lower_bound_and_updates next_node unlink
remove uninit_ok key l = bind (get_lower_bound_and_updates key l) λ r.
    bind (next_node l.heap r.0) λ found. elim found [
      | none ↦ some (l, none)
      | some n ↦ elim (bytes_eq n.1.key key) [
        | true ↦ bind (unlink (node_height n.1 + 1) 0 r.1 n.1 l.heap) λ heap.
            if uninit_ok then some (shrunk l (set_node heap n.0 none), some n.1.value) else none
        | false ↦ some (l, none)
      ]
    ]

-- `SkipListIter`, run to its end from a node.
unfoldable pub entries_from : ℕ → Heap → ℕ → Option (List (Slice × Slice))
unfolding next_node
entries_from zero heap p = none
entries_from (suc fuel) heap p = bind (next_node heap p) λ found. elim found [
  | none ↦ some []
  | some n ↦ bind (entries_from fuel heap n.0) λ es. some ((n.1.key, n.1.value) ∷ es)
]

abbrev pub entries : SkipList → Option (List (Slice × Slice))
entries l = entries_from (l.length + 1) l.heap l.head

-- The loop of `clone`: `choose` stands for the generator of heights.
unfoldable pub insert_all : (SkipList → ℕ) → List (Slice × Slice) → SkipList → Option SkipList
unfolding insert
insert_all choose [] l = some l
insert_all choose (e ∷ es) l =
    bind (insert (choose l) e.0 e.1 l) λ done. insert_all choose es done.0

-- `clone`: the copy stands in the heap of the list, behind what that has been given.
unfoldable pub clone : (SkipList → ℕ) → Slice × Slice → SkipList → Option SkipList
unfolding entries_from insert_all
clone choose junk l =
    bind (entries l) λ es. insert_all choose es (new junk l.heap l.top l.max_height)

-- The loop of `dispose` and the `free` behind it.
unfoldable pub dispose_from : ℕ → Heap → ℕ → Bool → Option Heap
dispose_from zero heap p is_head = none
dispose_from (suc fuel) heap p is_head = bind (heap p) λ node.
    let freed = if is_head then heap else set_node heap p none in
    elim (next node 0) [ none ↦ some freed | some q ↦ dispose_from fuel freed q false ]

-- `clear`; the box of the old head is left, and nothing points to it.
unfoldable pub clear : Slice × Slice → SkipList → Option SkipList
unfolding dispose_from
clear junk l =
    bind (dispose_from (l.length + 1) l.heap l.head true)
      λ heap. some (new junk heap l.top l.max_height)

-- `gen_height` on the coins that the generator throws from the `n`th on; `rounds` bounds the loop.
unfoldable pub gen_height : ℕ → (ℕ → Bool) → ℕ → ℕ → ℕ → ℕ
gen_height zero coins n max_height l = l
gen_height (suc rounds) coins n max_height l = elim (coins n) [
  | true ↦ elim (ltb l max_height) [
    | true ↦ gen_height rounds coins (suc n) max_height (suc l)
    | false ↦ l
  ]
  | false ↦ l
]
