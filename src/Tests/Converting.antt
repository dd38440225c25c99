-- ===== src/Tests/Converting.antt =====
-- gst/nvmmconvert/gstnvmmconvert.cpp: two surfaces of one size, and a pool that gives way to another.
use gst_nvmm_cpp.Common.{ℕ, ◌≡◌, refl, List, [], ◌∷◌, none, some, true, false}
use gst_nvmm_cpp.Surface.Buffer.{Owned}
use gst_nvmm_cpp.Surface.Transform.{rotate_90_cw, Library}
use gst_nvmm_cpp.Convert.{
  init, prop_flip_method, VideoInfo, shared, Buffer, set_property, set_caps, prepare_output_buffer,
  Query, choose_pool, decide_allocation, transform,
}
use gst_nvmm_cpp.Convert.Borrows.{succeeds, handle_of, transform_borrows}
use gst_nvmm_cpp.Convert.Pools.{
  Call, sets, decides, after_call, after_calls, own_pool, after_calls-own_pool,
}

abbrev wants : ℕ → Query
wants p = record { proposed = some (some p, 100, 0, 0); frame_size = none; new_pool = 9 }

abbrev calls : List Call
calls = decides (wants 1) ∷ sets (prop_flip_method rotate_90_cw) ∷ decides (wants 2) ∷ []

after_calls-own_pool_example :
    let (s, active) = after_calls calls (init, []) in active ≡ own_pool s.pool
after_calls-own_pool_example = after_calls-own_pool calls

second_pool_active : (after_calls calls (init, [])).1 ≡ 2 ∷ []
unfolding after_calls after_call decide_allocation choose_pool set_property
second_pool_active = refl

-- A proposed pool without an upper limit is limited to 8 buffers, below its lower limit of 12.
limited :
    choose_pool (record { proposed = some (some 1, 100, 12, 0); frame_size = none; new_pool = 9 })
    ≡ record { pool = 1; size = 100; min_buffers = 12; max_buffers = 8 }
unfolding choose_pool
limited = refl

abbrev info : VideoInfo
info = record { width = 64; height = 32; format = 0; size = 3072 }

abbrev frame : Buffer
frame = record { surface = none; pts = some 5; flags = 0 }

-- A flip that is set after the caps does not end passthrough.
flip_too_late :
    prepare_output_buffer
      (true, none)
      frame
      (set_property (prop_flip_method rotate_90_cw) (set_caps (some info) (some info) true init).1)
    ≡ shared
unfolding prepare_output_buffer set_property set_caps
flip_too_late = refl

abbrev owned : ℕ → Owned
owned h = record {
  handle = h;
  buf = record { batch_size = 0; num_filled = 0; mem_type = 0; surface_list = [] };
}

-- A library that fails.
abbrev fails : Library
fails src dst r = (false, dst)

transform_borrows_example :
    let (done, out, session, live) =
      transform fails init (some (owned 3)) (some (owned 4)) 0 (3 ∷ 4 ∷ []) in
    (live ≡ 3 ∷ 4 ∷ [])
    × (handle_of out ≡ some 4)
    × (done ≡ succeeds fails init (some (owned 3)) (some (owned 4)))
transform_borrows_example =
    transform_borrows fails init (some (owned 3)) (some (owned 4)) 0 (3 ∷ 4 ∷ [])
