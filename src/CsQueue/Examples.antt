-- ===== src/CsQueue/Examples.antt =====
-- The theorems about exec/cs_queue.h at concrete queues.
use corosync.Prelude.{ℕ, suc, ◌+◌, ◌≡◌, refl, false, some, [], ◌∷◌, ◌++◌, length, arith}
use corosync.CsQueue.{CsQueue, is_full, is_empty, item_add, item_get, item_remove}
use corosync.CsQueue.Fifo.{IsValid, contents, stored, item_add-contents, item_remove-contents}

-- Four slots, of which 3 and 0 hold an item.
abbrev two_items : CsQueue ℕ
two_items = record {
  head = 1;
  tail = 2;
  used = 2;
  usedhw = 3;
  size = 4;
  items = λ i. 70 + i;
  iterator = 0;
}

two_items-IsValid : IsValid two_items
two_items-IsValid = record {
  small = omega arith;
  tail_in = omega arith;
  room = omega arith;
  head_at = refl;
  high = omega arith;
}

abbrev full : CsQueue ℕ
full = record two_items { head = 2; used = 3 }

full-IsValid : IsValid full
full-IsValid = record {
  small = omega arith;
  tail_in = omega arith;
  room = omega arith;
  head_at = refl;
  high = omega arith;
}

two_items_run : contents two_items ≡ 73 ∷ 70 ∷ []
unfolding contents stored
two_items_run = refl

length-two_items : length (contents two_items) ≡ 2
unfolding contents stored
length-two_items = refl

not_full : is_full two_items ≡ false
unfolding is_full
not_full = refl

not_empty : is_empty two_items ≡ false
unfolding is_empty
not_empty = refl

length-full : suc (length (contents full)) ≡ full.size
unfolding contents stored
length-full = refl

item_add-contents_example :
    (t : CsQueue ℕ) × (item_add two_items 9 ≡ some t)
    × IsValid t
    × (contents t ≡ contents two_items ++ 9 ∷ [])
item_add-contents_example = item_add-contents two_items 9 two_items-IsValid not_full

item_remove-contents_example :
    (t : CsQueue ℕ) × (item_remove two_items ≡ some t)
    × IsValid t
    × (contents two_items ≡ item_get two_items ∷ contents t)
item_remove-contents_example = item_remove-contents two_items two_items-IsValid not_empty
