-- ===== src/Surface/Scale.antt =====
-- A scaling between surfaces of one size, on the stand-in library (gst/common/nvmm_transform.cpp,
-- gst/common/nvbufsurface_mock.h).
use gst_nvmm_cpp.Common.{
  ℕ, ◌<◌, ◌≡◌, refl, ◌∙◌, ap, sym, List, [], ◌∷◌, some, true, length, arith, get_or-set_self,
}
use gst_nvmm_cpp.Surface.Mock.{BufSurface, BufSurfaceParams, read_at, write_at}
use gst_nvmm_cpp.Surface.Calls.{
  buf_transform, transform_from, surface_at, copy_data, put_surface, smaller, no_params,
}
use gst_nvmm_cpp.Surface.Layout.{IsLaidOut}
use gst_nvmm_cpp.Surface.Types.{ok}
use gst_nvmm_cpp.Surface.Buffer.{NvmmBuffer, Owned, first}
use gst_nvmm_cpp.Surface.Transform.{Library, transform, scale}

-- NvBufSurfTransform of the stand-in, which looks at the surfaces only.
abbrev pub stand_in : Library
stand_in src dst q = (true, buf_transform src dst)

write_at-read_at_all :
    (xs ys : List ℕ) → length xs ≡ length ys → write_at ys 0 (read_at xs 0 (length ys)) ≡ xs
write_at-read_at_all [] [] e = refl
write_at-read_at_all [] (y ∷ ys) e = absurd (omega (arith, e))
write_at-read_at_all (x ∷ xs) [] e = absurd (omega (arith, e))
write_at-read_at_all (x ∷ xs) (y ∷ ys) e =
    ap (◌∷◌ x) (write_at-read_at_all xs ys (omega (arith, e)))

smaller_same : (n m : ℕ) → n ≡ m → smaller n m ≡ m
smaller_same n m e = ground (arith, e)

copy_data-same :
    (p q : BufSurfaceParams)
    → IsLaidOut p
    → IsLaidOut q
    → p.data_size ≡ q.data_size
    → (copy_data p q).data_ptr ≡ p.data_ptr
copy_data-same p q l k e =
    ap (λ n. write_at q.data_ptr 0 (read_at p.data_ptr 0 n))
      (smaller_same p.data_size q.data_size e ∙ sym k.room)
    ∙ write_at-read_at_all p.data_ptr q.data_ptr (l.room ∙ (e ∙ sym k.room))

buf_transform-one :
    (a b : BufSurface)
    → a.num_filled ≡ 1
    → b.batch_size ≡ 1
    → buf_transform a b ≡ put_surface b 0 (copy_data (surface_at a 0) (surface_at b 0))
unfolding buf_transform transform_from
buf_transform-one a b n m = ground (arith, n, m)

transform_done :
    (src dst : NvmmBuffer) (a b : Owned) (session : ℕ)
    → src.surface ≡ some a
    → dst.surface ≡ some b
    → scale stand_in src dst session ≡ (
      ok tt,
      record dst { surface = some (record b { buf = buf_transform a.buf b.buf }) },
      session,
    )
unfolding scale transform
transform_done src dst a b session s d = ground (arith, s, d)

-- Scaling between two single surfaces whose data have the same size succeeds on the stand-in library,
-- sets no session parameters, and leaves the source's bytes in the destination, which stays the same
-- surface with the same layout.
pub scale-copies :
    (src dst : NvmmBuffer) (a b : Owned) (session : ℕ)
    → src.surface ≡ some a
    → dst.surface ≡ some b
    → a.buf.num_filled ≡ 1
    → b.buf.batch_size ≡ 1
    → 0 < length b.buf.surface_list
    → IsLaidOut (first a)
    → IsLaidOut (first b)
    → (first a).data_size ≡ (first b).data_size
    → let (r, dst', session') = scale stand_in src dst session in
      (r ≡ ok tt)
      × (session' ≡ session)
      × (o : Owned) × (dst'.surface ≡ some o)
      × (o.handle ≡ b.handle)
      × ((first o).data_ptr ≡ (first a).data_ptr)
      × ((first o).planes ≡ (first b).planes)
scale-copies src dst a b session s d n m room l k e = rw (transform_done src dst a b session s d) (
  refl,
  refl,
  record b { buf = buf_transform a.buf b.buf },
  refl,
  refl,
  ap (λ (p : BufSurfaceParams). p.data_ptr) got ∙ copy_data-same (first a) (first b) l k e,
  ap (λ (p : BufSurfaceParams). p.planes) got,
)
  where
    got : surface_at (buf_transform a.buf b.buf) 0 ≡ copy_data (first a) (first b)
    got =
        ap (λ t. surface_at t 0) (buf_transform-one a.buf b.buf n m)
        ∙ get_or-set_self b.buf.surface_list 0 (copy_data (first a) (first b)) no_params room
