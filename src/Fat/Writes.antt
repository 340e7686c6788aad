-- ===== src/Fat/Writes.antt =====
-- A sequence of calls of `set_entry`: one value written to every cluster of a list, and the
-- clusters of a list linked each to the next. The nested loops over runs are such sequences over
-- the clusters that the runs cover.
pub mod Marking
pub mod Linking
pub mod Loops
use resident_fat.Prelude.{ℕ, List, [], ◌∷◌, Option, none, some}
use resident_fat.Fat.Table.{Fat, M, pure, ◌>>=◌, ◌>>◌, set_entry}
use resident_fat.Fat.Alloc.{link_to}
use resident_fat.Fat.SetEntry.{written}

unfoldable pub set_all : List ℕ → ℕ → M (Unit {0})
set_all [] value = pure tt
set_all (c ∷ cs) value = do set_entry c value; set_all cs value

unfoldable pub link_all : List ℕ → Option ℕ → M (Option ℕ)
unfolding link_to
link_all [] previous = pure previous
link_all (c ∷ cs) previous = do link_to previous c; link_all cs (some c)

-- the table that `set_all` leaves
unfoldable pub written_all : List ℕ → ℕ → Fat → Fat
written_all [] value f = f
written_all (c ∷ cs) value f = written_all cs value (written c value f)

-- the links that a list of clusters gets after `before`
unfoldable pub linked_from : ℕ → List ℕ → Fat → Fat
linked_from before [] f = f
linked_from before (c ∷ cs) f = linked_from c cs (written before c f)
