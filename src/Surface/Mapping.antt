-- ===== src/Surface/Mapping.antt =====
-- A plane that is mapped, written and unmapped (gst/common/nvbufsurface_mock.h).
use gst_nvmm_cpp.Common.{
  ℕ, zero, suc, ◌+◌, ◌≤◌, ◌<◌, ◌≡◌, ◌≢◌, refl, ◌∙◌, ap, subst, List, [], ◌∷◌, Option, none, some,
  true, ◌⊎◌, inl, inr, get_or, set, length, length-set, arith, get_or-set_self,
}
use gst_nvmm_cpp.Surface.Mock.{
  Plane, no_plane, BufSurfaceParams, plane_at, plane_bytes, read_at, write_at, map_plane,
  unmap_plane,
}
use gst_nvmm_cpp.Surface.Layout.{Tiles, IsLaidOut}

length-write_at : (xs : List ℕ) (o : ℕ) (bytes : List ℕ) → length (write_at xs o bytes) ≡ length xs
length-write_at [] o bytes = refl
length-write_at (x ∷ xs) zero [] = refl
length-write_at (x ∷ xs) zero (b ∷ bytes) = ground (arith, length-write_at xs zero bytes)
length-write_at (x ∷ xs) (suc o) bytes = ground (arith, length-write_at xs o bytes)

length-read_at : (xs : List ℕ) (o n : ℕ) → o + n ≤ length xs → length (read_at xs o n) ≡ n
length-read_at xs o zero h = refl
length-read_at [] o (suc n) h = absurd (omega arith)
length-read_at (x ∷ xs) zero (suc n) h = ground (arith, length-read_at xs zero n)
length-read_at (x ∷ xs) (suc o) (suc n) h = length-read_at xs o (suc n) (omega arith)

read_at-write_at_self :
    (xs : List ℕ) (o : ℕ) (bytes : List ℕ)
    → o + length bytes ≤ length xs
    → read_at (write_at xs o bytes) o (length bytes) ≡ bytes
read_at-write_at_self xs o [] h = refl
read_at-write_at_self [] o (b ∷ bytes) h = absurd (omega arith)
read_at-write_at_self (x ∷ xs) zero (b ∷ bytes) h =
    ap (◌∷◌ b) (read_at-write_at_self xs zero bytes (omega arith))
read_at-write_at_self (x ∷ xs) (suc o) (b ∷ bytes) h =
    read_at-write_at_self xs o (b ∷ bytes) (omega arith)

read_at-write_at_before :
    (xs : List ℕ) (o a n : ℕ) (bytes : List ℕ)
    → a + n ≤ o
    → read_at (write_at xs o bytes) a n ≡ read_at xs a n
read_at-write_at_before xs o a zero bytes h = refl
read_at-write_at_before [] o a (suc n) bytes h = refl
read_at-write_at_before (x ∷ xs) zero a (suc n) bytes h = absurd (omega arith)
read_at-write_at_before (x ∷ xs) (suc o) zero (suc n) bytes h =
    ap (◌∷◌ x) (read_at-write_at_before xs o zero n bytes (omega arith))
read_at-write_at_before (x ∷ xs) (suc o) (suc a) (suc n) bytes h =
    read_at-write_at_before xs o a (suc n) bytes (omega arith)

read_at-write_at_after :
    (xs : List ℕ) (o a n : ℕ) (bytes : List ℕ)
    → o + length bytes ≤ a
    → read_at (write_at xs o bytes) a n ≡ read_at xs a n
read_at-write_at_after xs o a zero bytes h = refl
read_at-write_at_after [] o a (suc n) bytes h = refl
read_at-write_at_after (x ∷ xs) zero a (suc n) [] h = refl
read_at-write_at_after (x ∷ xs) zero zero (suc n) (b ∷ bytes) h = absurd (omega arith)
read_at-write_at_after (x ∷ xs) zero (suc a) (suc n) (b ∷ bytes) h =
    read_at-write_at_after xs zero a (suc n) bytes (omega arith)
read_at-write_at_after (x ∷ xs) (suc o) zero (suc n) bytes h = absurd (omega arith)
read_at-write_at_after (x ∷ xs) (suc o) (suc a) (suc n) bytes h =
    read_at-write_at_after xs o a (suc n) bytes (omega arith)

write_at-read_at : (xs : List ℕ) (o n : ℕ) → write_at xs o (read_at xs o n) ≡ xs
write_at-read_at [] o n = refl
write_at-read_at (x ∷ xs) zero zero = refl
write_at-read_at (x ∷ xs) zero (suc n) = ap (◌∷◌ x) (write_at-read_at xs zero n)
write_at-read_at (x ∷ xs) (suc o) zero = ap (◌∷◌ x) (write_at-read_at xs o zero)
write_at-read_at (x ∷ xs) (suc o) (suc n) = ap (◌∷◌ x) (write_at-read_at xs o (suc n))

-- Where the planes of a tiling lie.
abbrev nth : List Plane → ℕ → Plane
nth ps i = get_or ps i no_plane

tile_within :
    (o all i : ℕ) (ps : List Plane)
    → Tiles o ps all
    → i < length ps
    → (o ≤ (nth ps i).offset) × ((nth ps i).offset + (nth ps i).psize ≤ all)
tile_within o all i [] t h = absurd (omega arith)
tile_within o all zero (p ∷ ps) t h =
    (omega (arith, t.0), omega (arith, t.0, tiles_end (o + p.psize) all ps t.2))
  where
    tiles_end : (a b : ℕ) (qs : List Plane) → Tiles a qs b → a ≤ b
    tiles_end a b [] u = omega arith
    tiles_end a b (q ∷ qs) u = omega (arith, tiles_end (a + q.psize) b qs u.2)
tile_within o all (suc i) (p ∷ ps) t h =
    let r = tile_within (o + p.psize) all i ps t.2 (omega arith) in (omega (arith, r.0), r.1)

Tiles-apart :
    (o all i j : ℕ) (ps : List Plane)
    → Tiles o ps all
    → i < j
    → j < length ps
    → (nth ps i).offset + (nth ps i).psize ≤ (nth ps j).offset
Tiles-apart o all i j [] t h k = absurd (omega arith)
Tiles-apart o all i zero (p ∷ ps) t h k = absurd (omega arith)
Tiles-apart o all zero (suc j) (p ∷ ps) t h k =
    omega (arith, t.0, (tile_within (o + p.psize) all j ps t.2 (omega arith)).0)
Tiles-apart o all (suc i) (suc j) (p ∷ ps) t h k =
    Tiles-apart (o + p.psize) all i j ps t.2 (omega arith) (omega arith)

-- The holder of a plane's address writes the plane's bytes.
abbrev pub written : ℕ → List ℕ → BufSurfaceParams → BufSurfaceParams
written pl bytes p = record p { mapped = set p.mapped pl (some bytes) }

map_plane-fresh :
    (pl : ℕ) (p : BufSurfaceParams)
    → get_or p.mapped pl none ≡ none
    → map_plane true pl p ≡ (true, written pl (plane_bytes p pl) p)
unfolding map_plane
map_plane-fresh pl p e = ground (arith, e)

unmap_plane-written :
    (pl : ℕ) (bytes : List ℕ) (p : BufSurfaceParams)
    → pl < length p.mapped
    → unmap_plane pl (written pl bytes p) ≡ record p {
      data_ptr = write_at p.data_ptr (plane_at p pl).offset bytes;
      mapped = set (set p.mapped pl (some bytes)) pl none;
    }
unfolding unmap_plane
unmap_plane-written pl bytes p h = ground (arith, get_or-set_self p.mapped pl (some bytes) none h)

apart : (a b : ℕ) → a ≢ b → (a < b) ⊎ (b < a)
apart a b ne = ground arith

other_plane :
    (p : BufSurfaceParams) (pl q : ℕ) (bytes : List ℕ)
    → IsLaidOut p
    → pl < length p.planes
    → q < length p.planes
    → q ≢ pl
    → length bytes ≡ (plane_at p pl).psize
    → read_at
        (write_at p.data_ptr (plane_at p pl).offset bytes)
        (plane_at p q).offset
        (plane_at p q).psize
      ≡ plane_bytes p q
other_plane p pl q bytes l h k ne e = elim (apart q pl ne) [
  | inl lt ↦
      read_at-write_at_before p.data_ptr _ _ _ bytes
        (Tiles-apart 0 p.data_size q pl p.planes l.tiles lt h)
  | inr gt ↦
      read_at-write_at_after p.data_ptr _ _ _ bytes
        (omega (arith, e, Tiles-apart 0 p.data_size pl q p.planes l.tiles gt k))
]

-- A plane that was not mapped is mapped to a copy of its bytes; whatever is written there is in the
-- plane after the unmapping, every other plane is as before, and the surface is laid out as before.
pub unmap_plane-map_plane :
    (p : BufSurfaceParams) (pl : ℕ) (bytes : List ℕ)
    → IsLaidOut p
    → pl < length p.planes
    → get_or p.mapped pl none ≡ none
    → length bytes ≡ (plane_at p pl).psize
    → let (ok, mapped) = map_plane true pl p in
      let after = unmap_plane pl (written pl bytes mapped) in
      (ok ≡ true)
      × (get_or mapped.mapped pl none ≡ some (plane_bytes p pl))
      × (plane_bytes after pl ≡ bytes)
      × ((q : ℕ) → q < length p.planes → q ≢ pl → plane_bytes after q ≡ plane_bytes p q)
      × (get_or after.mapped pl none ≡ none)
      × IsLaidOut after
unmap_plane-map_plane p pl bytes l h e n =
    rw (map_plane-fresh pl p e, unmap_plane-written pl bytes (written pl (plane_bytes p pl) p) room)
      (
        refl,
        get_or-set_self p.mapped pl (some (plane_bytes p pl)) none has,
        subst
            (λ k.
              read_at (write_at p.data_ptr (plane_at p pl).offset bytes) (plane_at p pl).offset k
              ≡ bytes)
            n
            (read_at-write_at_self p.data_ptr _ bytes
              (omega (arith, n, l.room, (tile_within 0 p.data_size pl p.planes l.tiles h).1))),
        λ q k ne. other_plane p pl q bytes l h k ne n,
        get_or-set_self twice pl none none (omega (arith, room, length-set once pl (some bytes))),
        record {
          tiles = l.tiles;
          room = length-write_at p.data_ptr _ bytes ∙ l.room;
          few = l.few;
          addresses =
              length-set twice pl none
              ∙ (length-set once pl (some bytes) ∙ (length-set p.mapped pl _ ∙ l.addresses));
        },
      )
  where
    once : List (Option (List ℕ))
    once = (written pl (plane_bytes p pl) p).mapped

    twice : List (Option (List ℕ))
    twice = set once pl (some bytes)

    has : pl < length p.mapped
    has = omega (arith, h, l.few, l.addresses)

    room : pl < length (written pl (plane_bytes p pl) p).mapped
    room = omega (arith, has, length-set p.mapped pl (some (plane_bytes p pl)))
