-- ===== src/Convert/Comparison.antt =====
-- core/object.c: `lai_obj_exec_match_op` of two buffers, with the copy that it makes and releases.
use mathlib.Core.List.{append-nil}
use lai.Base.{
  set-set, ℕ, suc, ◌-◌, ◌≡◌, ◌≢◌, ◌↔◌, refl, ap, ap₂, ◌∙◌, Bool, true, none, some, List, [], ◌∷◌,
  ◌++◌, length, take, drop, replicate, length-replicate, ok, no_error, arith,
}
use lai.Objects.{
  empty_var, buffer, buffer_head, Cell, Heap, cell_at, deref, rc_unref, free_head, var_finalize,
}
use lai.Objects.Vars.{finalize_var}
use lai.Objects.Counts.{cell-lt}
use lai.Convert.{create_buffer, create}
use lai.Convert.Clone.{clone_buffer, swap_in, obj_clone}
use lai.Convert.Buffers.{to_buffer}
use lai.Convert.Match.{MatchOp, illegal_op, match_bytes, conclude, converted, exec_match_op}
use lai.Convert.Cells.{
  set-append_self, get_or-append_self, get_or-append_low, drop-replicate, buffer_access_at,
  write_buffer_at, memcpy_fits,
}
use lai.Convert.Fit.{take_whole}
use lai.Convert.Through.{grown}
use lai.Convert.Order.{Means, Answers, memcmp-Verdict, Verdict-Answers}

-- A buffer of its own with these bytes.
abbrev pub new_buffer : List ℕ → Cell
new_buffer bytes = record { rc = 1; head = buffer_head bytes }

old_cell : (h : Heap) (q : ℕ) (d c : Cell) → cell_at h q ≡ some d → cell_at (grown h c) q ≡ some d
old_cell h q d c there = get_or-append_low h (some c ∷ []) q none (cell-lt h q d there) ∙ there

clone_buffer_lem :
    (h : Heap) (q : ℕ) (d : Cell) (bytes : List ℕ)
    → cell_at h q ≡ some d
    → d.head ≡ buffer_head bytes
    → clone_buffer true h (buffer q) ≡ ok (buffer (length h), grown h (new_buffer bytes))
unfolding clone_buffer create_buffer create
clone_buffer_lem h q d bytes there kind =
    let zeros : List ℕ = replicate (length bytes) 0 in
    let made = new_buffer zeros in
    let at : cell_at (grown h made) (length h) ≡ some made =
      get_or-append_self h (some made) none in
    let size : length zeros ≡ length bytes = length-replicate {A = ℕ} (length bytes) 0 in
    let none_left : length bytes - length bytes ≡ 0 = omega arith in
    let left : take (length bytes) bytes ++ drop (length bytes) zeros ≡ bytes =
      ap₂ (λ (a b : List ℕ). a ++ b) (take_whole (length bytes) bytes refl)
        (drop-replicate (length bytes) (length bytes) 0 ∙ ap (λ (t : ℕ). replicate t 0) none_left)
      ∙ append-nil bytes in
    rw
      (
        buffer_access_at h q d there bytes kind,
        buffer_access_at (grown h made) q d (old_cell h q d made there) bytes kind,
        buffer_access_at (grown h made) (length h) made at zeros refl,
        memcpy_fits zeros bytes (length bytes) (omega (arith, size)) (omega arith),
        left,
        write_buffer_at (grown h made) (length h) made at bytes,
        set-append_self h (some made) (some (new_buffer bytes)),
      )
      refl

to_buffer-buffer :
    (fuel : ℕ) (h : Heap) (q : ℕ) (d : Cell) (bytes : List ℕ)
    → cell_at h q ≡ some d
    → d.head ≡ buffer_head bytes
    → to_buffer (suc fuel) true h empty_var (buffer q)
      ≡ ok (no_error, buffer (length h), grown h (new_buffer bytes))
unfolding to_buffer obj_clone swap_in
to_buffer-buffer fuel h q d bytes there kind = rw (clone_buffer_lem h q d bytes there kind) refl

-- The last reference to a buffer goes, and the buffer with it.
finalize_new :
    (h : Heap) (bytes : List ℕ)
    → finalize_var (grown h (new_buffer bytes)) (buffer (length h)) ≡ ok (h ++ none ∷ [])
unfolding finalize_var var_finalize
finalize_new h bytes =
    let c = new_buffer bytes in
    let at : cell_at (grown h c) (length h) ≡ some c = get_or-append_self h (some c) none in
    let dead : Cell = record { rc = 0; head = buffer_head bytes } in
    let still : cell_at (grown h dead) (length h) ≡ some dead =
      get_or-append_self h (some dead) none in
    rw
      (
        rc_unref,
        deref,
        at,
        set-append_self h (some c) (some dead),
        free_head,
        deref,
        still,
        set-set (grown h c) (length h) (some dead) none,
        set-append_self h (some c) none,
      )
      refl

-- When lai_obj_exec_match_op compares two buffers, with room for its copy, each legal operator
-- returns without an error, with the truth of what it asks of the two sequences of bytes: MEQ
-- equality, MLT and MGT the lexicographic order of unsigned bytes, MLE and MGE the negations of
-- MGT and MLT, MTR nothing. The copy is released, and the other objects are as before.
pub exec_match_op-Answers :
    (fuel : ℕ) (h : Heap) (op : MatchOp) (p q : ℕ) (c d : Cell) (a b : List ℕ)
    → op ≢ illegal_op
    → cell_at h p ≡ some c
    → c.head ≡ buffer_head a
    → cell_at h q ≡ some d
    → d.head ≡ buffer_head b
    → (r : Bool) × (exec_match_op (suc fuel) true h op (buffer p) (buffer q)
        ≡ ok (no_error, some r, h ++ none ∷ []))
      × ((r ≡ true) ↔ Means op a b)
unfolding exec_match_op match_bytes conclude Answers
exec_match_op-Answers fuel h op p q c d a b legal here kind there kind' =
    let (s, run, verdict) = memcmp-Verdict a b in
    let (r, answer, means) = Verdict-Answers op s a b legal verdict in
    let copy = new_buffer b in
    (
      r,
      rw
          (
            to_buffer-buffer fuel h q d b there kind',
            converted,
            buffer_access_at (grown h copy) p c (old_cell h p c copy here) a kind,
            buffer_access_at (grown h copy) (length h) copy (get_or-append_self h (some copy) none)
                b refl,
            run,
            answer,
            conclude,
            finalize_new h b,
          )
          refl,
      means,
    )
