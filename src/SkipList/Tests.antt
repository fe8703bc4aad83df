-- ===== src/SkipList/Tests.antt =====
-- Runs of the skip list on small maps with numbers as keys.
use dbprimkit.Base.{ℕ, ◌≡◌, refl, List, [], ◌∷◌, none, some, arith, true}
use dbprimkit.Error.{Outcome, ok, ◌>>=◌}
use dbprimkit.SkipList.{
  Order, SkipListMap, link, new, gen_height, ptr_to_mut, next_addr_to_ptr, set_next, put_node,
  new_node, free,
}
use dbprimkit.SkipList.Search.{get, walk, begin, search_from, search, get_key_value, contains_key}
use dbprimkit.SkipList.Model.{Entry, IsRep}
use dbprimkit.SkipList.Find.{search_lem}
use dbprimkit.SkipList.Places.{search_ext_lem}
use dbprimkit.SkipList.Insert.{insert_lem}
use dbprimkit.SkipList.Replace.{replace_lem}
use dbprimkit.SkipList.History.{inserts, get-inserts}
use dbprimkit.SkipList.Reads.{reads_lem}
use dbprimkit.SkipList.Iter.{iter, iter_lem, clear, clear_heads, drop_nodes}
use dbprimkit.SkipList.Update.{
  insert, remove_entry, search_ext, search_ext_from, level_ext, walk_ext, insert_at, link_nodes,
  link_levels, remove_at, unlink_nodes, unlink_levels,
}
use Prim.Native.Nat.{compare}

abbrev numbers : Order ℕ
numbers = record {
  cmp = compare;
  cmp_refl = λ a. ground arith;
  eq_of-cmp = λ a b h. ground arith;
  lt_trans = λ a b c h k. ground arith;
  lt_of_gt = λ a b h. ground arith;
  gt_of_lt = λ a b h. ground arith;
}

-- Keys 2, 4 and 6 on towers of one, three and two levels.
abbrev three : Outcome (SkipListMap ℕ ℕ)
three = do
  (_, m) ← insert numbers (new 4) 4 4 40
  (_, m) ← insert numbers m 1 2 20
  (_, m) ← insert numbers m 2 6 60
  ok m

abbrev three_map : SkipListMap ℕ ℕ
three_map = record {
  max_height = 4;
  len = 3;
  next = some 1 ∷ some 0 ∷ some 0 ∷ none ∷ [];
  heap =
      some (record { height = 3; key = 4; value = 40; next = some 2 ∷ some 2 ∷ none ∷ [] })
      ∷ some (record { height = 1; key = 2; value = 20; next = some 0 ∷ [] })
      ∷ some (record { height = 2; key = 6; value = 60; next = none ∷ none ∷ [] })
      ∷ [];
}

abbrev three_entries : List (Entry ℕ ℕ)
three_entries =
    record { ptr = 1; height = 1; key = 2; value = 20 }
    ∷ record { ptr = 0; height = 3; key = 4; value = 40 }
    ∷ record { ptr = 2; height = 2; key = 6; value = 60 }
    ∷ []

three-eq : three ≡ ok three_map
unfolding insert begin search_ext search_ext_from level_ext walk_ext insert_at link_nodes
    link_levels ptr_to_mut next_addr_to_ptr set_next put_node new_node gen_height new
three-eq = refl

three-IsRep : IsRep numbers three_map three_entries
three-IsRep = record {
  tall = omega arith;
  heads = refl;
  stored = (omega arith, refl, (omega arith, refl, (omega arith, refl, tt)));
  ascending = ((refl, (refl, tt)), ((refl, tt), (tt, tt)));
  room = omega arith;
  counted = refl;
}

reads_lem_example :
    (get_key_value numbers three_map 6 ≡ ok (some (6, 60)))
    × (get numbers three_map 6 ≡ ok (some 60))
    × (contains_key numbers three_map 6 ≡ ok true)
reads_lem_example = reads_lem numbers three_map three_entries 6 three-IsRep

search_lem_example : search numbers three_map 5 ≡ ok none
search_lem_example = search_lem numbers three_map 5 three_entries three-IsRep

iter_lem_example : iter three_map ≡ ok ((2, 20) ∷ (4, 40) ∷ (6, 60) ∷ [])
iter_lem_example = iter_lem numbers three_map three_entries three-IsRep

three_cleared :
    clear three_map
    ≡ ok (record {
      max_height = 4;
      len = 0;
      next = none ∷ none ∷ none ∷ none ∷ [];
      heap = none ∷ none ∷ none ∷ [];
    })
unfolding clear clear_heads drop_nodes next_addr_to_ptr ptr_to_mut set_next free
three_cleared = refl

three_with_six : (three >>= λ m. get numbers m 6) ≡ ok (some 60)
unfolding insert get walk begin search_from search get_key_value search_ext search_ext_from
    level_ext walk_ext insert_at link_nodes link_levels ptr_to_mut next_addr_to_ptr set_next
    put_node new_node gen_height new
three_with_six = refl

three_without_four :
    (three >>= λ m. remove_entry numbers m 4 >>= λ r. get numbers (r.1) 4) ≡ ok none
unfolding insert get walk begin search_from search get_key_value search_ext search_ext_from
    level_ext walk_ext insert_at link_nodes link_levels ptr_to_mut next_addr_to_ptr set_next
    put_node new_node gen_height new remove_entry remove_at unlink_nodes unlink_levels free
three_without_four = refl

search_ext_lem_example :
    search_ext numbers three_map 5 3
    ≡ ok (none, (link 0 2, none) ∷ (link 0 1, some 2) ∷ (link 0 0, some 2) ∷ [])
search_ext_lem_example =
    search_ext_lem numbers three_map 5 three_entries 3 three-IsRep (omega arith) (omega arith)

-- Key 5, on a tower of two levels, goes in front of key 6.
abbrev four_map : SkipListMap ℕ ℕ
four_map = record {
  max_height = 4;
  len = 4;
  next = some 1 ∷ some 0 ∷ some 0 ∷ none ∷ [];
  heap =
      some (record { height = 3; key = 4; value = 40; next = some 3 ∷ some 3 ∷ none ∷ [] })
      ∷ some (record { height = 1; key = 2; value = 20; next = some 0 ∷ [] })
      ∷ some (record { height = 2; key = 6; value = 60; next = none ∷ none ∷ [] })
      ∷ some (record { height = 2; key = 5; value = 50; next = some 2 ∷ some 2 ∷ [] })
      ∷ [];
}

insert_lem_example :
    (n : SkipListMap ℕ ℕ) × (insert numbers three_map 2 5 50 ≡ ok (none, n))
    × IsRep numbers n (
        record { ptr = 1; height = 1; key = 2; value = 20 }
        ∷ record { ptr = 0; height = 3; key = 4; value = 40 }
        ∷ record { ptr = 3; height = 2; key = 5; value = 50 }
        ∷ record { ptr = 2; height = 2; key = 6; value = 60 }
        ∷ [])
    × (n.max_height ≡ 4)
unfolding gen_height
insert_lem_example =
    insert_lem numbers three_map three_entries 2 5 50 three-IsRep (omega arith) refl

three_and_five : insert numbers three_map 2 5 50 ≡ ok (none, four_map)
unfolding insert begin search_ext search_ext_from level_ext walk_ext insert_at link_nodes
    link_levels ptr_to_mut next_addr_to_ptr set_next put_node new_node gen_height
three_and_five = refl

replace_lem_example :
    (n : SkipListMap ℕ ℕ) × (insert numbers three_map 2 4 44 ≡ ok (some 40, n))
    × IsRep numbers n (
        record { ptr = 1; height = 1; key = 2; value = 20 }
        ∷ record { ptr = 0; height = 3; key = 4; value = 44 }
        ∷ record { ptr = 2; height = 2; key = 6; value = 60 }
        ∷ [])
    × (n.max_height ≡ 4)
replace_lem_example =
    replace_lem numbers 4 44 three_map three_entries
      (record { ptr = 0; height = 3; key = 4; value = 40 }) 2 three-IsRep (omega arith) refl

-- Key 4 is put twice.
abbrev four_puts : List (ℕ × ℕ × ℕ)
four_puts = (4, 4, 40) ∷ (1, 2, 20) ∷ (2, 6, 60) ∷ (1, 4, 44) ∷ []

get-inserts_example :
    (n : SkipListMap ℕ ℕ) × (inserts numbers (new 4) four_puts ≡ ok n)
    × (get numbers n 4 ≡ ok (some 44))
get-inserts_example = get-inserts numbers 4 four_puts 4
