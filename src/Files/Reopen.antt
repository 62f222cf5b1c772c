-- ===== src/Files/Reopen.antt =====
-- `fopen` and then `fclose`, and the descriptors that they leave alone.
use os_dev_mtk.Base.{
  ℕ, suc, ◌+◌, ◌-◌, ◌<◌, ◌≡◌, ◌≢◌, ◌∙◌, sym, ap, inl, inr, Option, none, some, List, arith,
  get_elem?, set, get_elem?-set_self, get_elem?-set_ne, pos, ne,
}
use os_dev_mtk.Files.{
  FileSystem, FileDescriptor, Descriptors, max_descriptors, file_get_fd, file_free_descriptor,
  fopen, fclose,
}
use os_dev_mtk.Files.Table.{free_slot-first, set-set_free, IsTable}
use os_dev_mtk.Files.Calls.{Added, fopen-Opens}
use os_dev_mtk.Files.Sessions.{file_get_fd-at}

module _ {P : Type 0} where
  -- The slot that `fopen` takes.
  module _ (filesystem : Option (FileSystem P)) (table table' : Descriptors P) (n : ℕ)
      (is : IsTable table) (added : Added filesystem table n table') where
    slot_free : (added.slot < max_descriptors) × (get_elem? table added.slot ≡ some none)
    slot_free =
        let (_, to, free, _) = free_slot-first table 0 added.slot added.first in
        let here : added.slot - 0 ≡ added.slot = omega arith in
        (omega (arith, is.size), ap (get_elem? table) (sym here) ∙ free)

    abbrev new_descriptor : FileDescriptor P
    new_descriptor = record { id = added.slot + 1; fs = added.fs; private = added.private }

    found_new : file_get_fd table' (pos n) ≡ some new_descriptor
    found_new =
        let (l, free) = slot_free in
        rw (added.number, added.stored)
          (file_get_fd-at (set table added.slot (some new_descriptor)) added.slot
            (some new_descriptor) l
            (get_elem?-set_self table added.slot (some new_descriptor) (omega (arith, is.size))))

  -- In a table whose descriptors have their places as numbers, closing the descriptor that `fopen` has
  -- just given, on a file system whose `close` returns 0, gives back the table as it was.
  pub fclose-fopen :
      (table table' : Descriptors P) (fs : FileSystem P) (filename mode_str : List ℕ) (n : ℕ)
      → IsTable table
      → ((p : P) → fs.close p ≡ ne)
      → fopen table (some fs) filename mode_str ≡ some (suc n, table')
      → fclose table' (pos (suc n)) ≡ (ne, table)
  unfolding fclose file_free_descriptor
  fclose-fopen table table' fs filename mode_str n is well h =
      elim (fopen-Opens table (some fs) filename mode_str (suc n) table' h) [
        | inl (e, _) ↦ absurd cc
        | inr added ↦
            let (_, free) = slot_free (some fs) table table' (suc n) is added in
            let same : fs ≡ added.fs = ground (arith, added.served) in
            let closed : added.fs.close added.private ≡ ne =
              ap (λ (f : FileSystem P). f.close added.private) (sym same) ∙ well added.private in
            let back : added.slot + 1 - 1 ≡ added.slot = omega arith in
            rw
              (
                fclose,
                found_new (some fs) table table' (suc n) is added,
                closed,
                back,
                added.stored,
              )
              (ap (λ (t : Descriptors P). (ne, t)) (set-set_free table added.slot _ free))
      ]

  -- In a table whose descriptors have their places as numbers, a number that `fopen` returns stood for
  -- no descriptor before, and every other positive number stands for what it stood for.
  pub fopen-others :
      (table table' : Descriptors P) (filesystem : Option (FileSystem P))
      (filename mode_str : List ℕ) (n : ℕ)
      → IsTable table
      → fopen table filesystem filename mode_str ≡ some (suc n, table')
      → (file_get_fd table (pos (suc n)) ≡ none)
        × ((k : ℕ) → k ≢ n → file_get_fd table' (pos (suc k)) ≡ file_get_fd table (pos (suc k)))
  unfolding file_get_fd
  fopen-others table table' filesystem filename mode_str n is h =
      elim (fopen-Opens table filesystem filename mode_str (suc n) table' h) [
        | inl (e, _) ↦ absurd cc
        | inr added ↦
            let (l, free) = slot_free filesystem table table' (suc n) is added in
            let number : suc n ≡ added.slot + 1 = added.number in
            (
              rw number (file_get_fd-at table added.slot none l free),
              λ k other.
                  let back : suc k - 1 ≡ k = omega arith in
                  let differ : added.slot ≢ k = omega (arith, other) in
                  rw (
                    added.stored,
                    back,
                    get_elem?-set_ne table added.slot k
                        (some (new_descriptor filesystem table table' (suc n) is added)) differ,
                  ),
            )
      ]
