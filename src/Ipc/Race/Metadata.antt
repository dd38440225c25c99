-- ===== src/Ipc/Race/Metadata.antt =====
-- The metadata record of a slot, between the release of the slot's lock in gstnvmmsink.cpp and the write
-- of the record.
use gst_nvmm_cpp.Common.{
  ℕ, zero, suc, ◌<◌, ◌≡◌, refl, sym, subst, List, [], ◌∷◌, some, set, get_elem?,
}
use gst_nvmm_cpp.Common.Int.{pos, inc32}
use gst_nvmm_cpp.Ipc.Sink.Render.{ref_count, set_refs}
use gst_nvmm_cpp.Ipc.Race.{
  System, Reader, ReaderAt, Reach, here, next, read, counters, outside, chosen, loaded, claimed,
  Read, choose, load, swap,
}

get_elem?-set_self :
    (xs : List Reader) (k : ℕ) (r q : Reader)
    → get_elem? xs k ≡ some r
    → get_elem? (set xs k q) k ≡ some q
get_elem?-set_self [] k r q e = absurd cc
get_elem?-set_self (x ∷ xs) zero r q e = refl
get_elem?-set_self (x ∷ xs) (suc k) r q e = get_elem?-set_self xs k r q e

-- Three accesses of reader `k`: it reads the announced slot, loads the counter and takes a reference.
module _ (k n : ℕ) (r : Reader) (s : System) (e : get_elem? s.readers k ≡ some r)
    (o : r.at ≡ outside) (lt : s.seg.header.write_idx < r.src.pool_size)
    (v : ref_count (counters s.seg) s.seg.header.write_idx ≡ pos n) where
  abbrev announced : ℕ
  announced = s.seg.header.write_idx

  abbrev at_slot : ReaderAt → Reader
  at_slot p = record { src = r.src; at = p }

  abbrev first : List Reader
  first = set s.readers k (at_slot (chosen announced 0))

  abbrev second : List Reader
  second = set first k (at_slot (loaded announced 0 (pos n)))

  abbrev after : System
  after = record s {
    seg = set_refs (set (counters s.seg) announced (inc32 (pos n))) s.seg;
    readers = set second k (at_slot (claimed announced));
  }

  first_there : get_elem? first k ≡ some (at_slot (chosen announced 0))
  first_there = get_elem?-set_self s.readers k r _ e

  second_there : get_elem? second k ≡ some (at_slot (loaded announced 0 (pos n)))
  second_there = get_elem?-set_self first k _ _ first_there

  pub after_there : get_elem? after.readers k ≡ some (at_slot (claimed announced))
  after_there = get_elem?-set_self second k _ _ second_there

  pub Reach-after : Reach s after
  Reach-after =
      next
        (next
          (next here (
            read k r e (
              subst (λ p. Read r.src s.seg p r.src s.seg (chosen announced 0)) (sym o)
                (choose lt))))
          (read k _ first_there (
            subst (λ z. Read r.src s.seg (chosen announced 0) r.src s.seg (loaded announced 0 z)) v
              (load announced 0))))
        (read k _ second_there (swap announced 0 n v))
