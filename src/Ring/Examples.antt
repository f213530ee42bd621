-- ===== src/Ring/Examples.antt =====
-- Runs of the ring buffer on small inputs.
use esp32_usb_ip.Prelude.{◌≡◌, refl, arith, false, List, [], ◌∷◌, take}
use esp32_usb_ip.Ring.{
  new, next, write, write_byte, write_bytes, allocate, read, read_bytes, pop, peek, peek_bytes,
  clear, refill, resize, size, available, empty, full,
}
use esp32_usb_ip.Ring.Refines.{
  Call, put, get, glance, wipe, change_limit, look, taken, bytes, nothing, state, run, queue_run,
  queue, run-refines_queue, step,
}
use esp32_usb_ip.Ring.Contents.{IsValid, contents}
use esp32_usb_ip.Ring.Operations.{write_lem, new_lem}
use esp32_usb_ip.Ring.Resizing.{resize_lem}

-- Six bytes for four places, a read, a write that wraps, and a smaller buffer.
abbrev calls : List Call
calls =
    put (1 ∷ 2 ∷ 3 ∷ 4 ∷ 5 ∷ 6 ∷ [])
    ∷ get 3
    ∷ put (7 ∷ 8 ∷ [])
    ∷ look
    ∷ glance 9
    ∷ change_limit 2
    ∷ get 9
    ∷ wipe
    ∷ []

run-calls :
    run (new 4) calls
    ≡ taken 4
      ∷ bytes (1 ∷ 2 ∷ 3 ∷ [])
      ∷ taken 2
      ∷ state 3 1 false false
      ∷ bytes (4 ∷ 7 ∷ 8 ∷ [])
      ∷ nothing
      ∷ bytes (4 ∷ 7 ∷ [])
      ∷ nothing
      ∷ []
unfolding run step new next write write_byte write_bytes allocate read read_bytes pop peek
    peek_bytes clear refill resize size available empty full
run-calls = refl

run-refines_queue_example : run (new 4) calls ≡ queue_run (queue 4 []) calls
run-refines_queue_example =
    run-refines_queue 4 calls (omega arith)
      (tt, (tt, (tt, (tt, (tt, (omega arith, (tt, (tt, tt))))))))

resize_example :
    IsValid (resize (write (new 4) (1 ∷ 2 ∷ [])).1 1)
    × ((resize (write (new 4) (1 ∷ 2 ∷ [])).1 1).capacity ≡ 1)
    × (contents (resize (write (new 4) (1 ∷ 2 ∷ [])).1 1)
        ≡ take 1 (contents (write (new 4) (1 ∷ 2 ∷ [])).1))
resize_example =
    resize_lem (write (new 4) (1 ∷ 2 ∷ [])).1 1
      (write_lem (new 4) (1 ∷ 2 ∷ []) (new_lem 4 (omega arith)).0).0 (omega arith)
