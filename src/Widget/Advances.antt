-- ===== src/Widget/Advances.antt =====
-- The drain of XtermWebTerminalState of xterm_web_terminal.dart takes a step towards rest.
use termethis.Base.{
  ℕ, suc, ◌+◌, ◌-◌, ◌*◌, ◌≤◌, ◌<◌, ◌≡◌, refl, sym, ap, ◌∙◌, true, false, List, [], ◌∷◌, ◌++◌, ◌&&◌,
  leb, if◌then◌else◌, if_elim, length, append_assoc, append-nil, arith, Bool-cases, inl, inr,
}
use termethis.Prompt.{is_empty}
use termethis.Widget.{
  Widget, QueuedChunk, Script, ended, ran, wrote, set_output_backpressure, report_fatal,
  resume_output_at_bytes,
}
use termethis.Widget.Drains.{drain_operations, drain_from, drain_output, send_chunk}
use termethis.Widget.Chunks.{queued_bytes}
use termethis.Widget.Awake.{has_work}
use termethis.Widget.Flow.{
  written, written-append, weight, IsOpen, Advances, SameFlow, set_output_backpressure-SameFlow,
  report_fatal-SameFlow, report_fatal-ended,
}

send_chunk-Advances :
    (c : QueuedChunk) (cs : List QueuedChunk) (w : Widget)
    → IsOpen w
    → w.scripts ≡ []
    → w.output ≡ c ∷ cs
    → Advances (1 + 3 * length w.scripts + 5 * length w.output) w (send_chunk c cs w)
unfolding send_chunk
send_chunk-Advances c cs w o quiet e =
    let left = w.output_bytes - length c.bytes in
    let taken = record w { output = cs; output_bytes = left } in
    let t =
      if leb left resume_output_at_bytes then set_output_backpressure false taken else taken in
    let s : SameFlow taken t =
      if_elim (λ (v : Widget). SameFlow taken v) (leb left resume_output_at_bytes)
        (λ _. set_output_backpressure-SameFlow false taken)
        (λ _. record {
          same_ready = refl;
          same_active = refl;
          same_disposed = refl;
          same_scripts = refl;
          same_output = refl;
          same_sent = refl;
        }) in
    record {
      opens = record {
        is_ready = s.same_ready ∙ o.is_ready;
        active = s.same_active ∙ o.active;
        live = s.same_disposed ∙ o.live;
      };
      same_total =
          ap (λ x. x ++ queued_bytes t.output)
            (written-append t.sent (wrote c.bytes c.reset (suc t.write_id) ∷ []))
          ∙ append_assoc (written t.sent) (c.bytes ++ []) (queued_bytes t.output)
          ∙ ap (λ x. written x ++ ((c.bytes ++ []) ++ queued_bytes t.output)) s.same_sent
          ∙ ap (λ x. written w.sent ++ ((c.bytes ++ []) ++ queued_bytes x)) s.same_output
          ∙ ap (λ x. written w.sent ++ (x ++ queued_bytes cs)) (append-nil c.bytes)
          ∙ ap (λ x. written w.sent ++ queued_bytes x) (sym e);
      less = omega (arith, ap length s.same_scripts, ap length s.same_output, ap length e);
    }

-- _drainOperations with something to send.
pub drain_operations-Advances :
    (w : Widget)
    → IsOpen w
    → has_work w ≡ true
    → Advances (1 + 3 * length w.scripts + 5 * length w.output) w (drain_operations w)
unfolding drain_operations drain_from drain_output
drain_operations-Advances w o work =
    if_elim (λ (v : Widget). Advances (1 + 3 * length w.scripts + 5 * length w.output) w v)
      w.disposed (λ gone. absurd (let e = o.live in cc)) (λ _. from_scripts w.scripts w refl o work)
  where
    from_output :
        (cs : List QueuedChunk) (w : Widget)
        → w.output ≡ cs
        → w.scripts ≡ []
        → IsOpen w
        → is_empty cs ≡ false
        → Advances (1 + 3 * length w.scripts + 5 * length w.output) w (drain_output cs w)
    from_output [] w e quiet o some_output = absurd (cc)
    from_output (c ∷ cs) w e quiet o some_output = send_chunk-Advances c cs w o quiet e

    from_scripts :
        (ss : List Script) (w : Widget)
        → w.scripts ≡ ss
        → IsOpen w
        → has_work w ≡ true
        → Advances (1 + 3 * length w.scripts + 5 * length w.output) w (drain_from ss w)
    from_scripts (s ∷ ss) w e o work = record {
      opens = record { is_ready = o.is_ready; active = o.active; live = o.live };
      same_total =
          ap (λ x. x ++ queued_bytes w.output)
            (written-append w.sent (ran s ∷ []) ∙ append-nil (written w.sent));
      less = omega (arith, ap length e);
    }
    from_scripts [] w e o work =
        if_elim (λ (v : Widget). Advances (1 + 3 * length w.scripts + 5 * length w.output) w v)
          (w.is_ready && w.active)
          (λ _. from_output w.output w refl e o (
            let r = o.is_ready in
            let a = o.active in let none_left = ap is_empty e in ground arith))
          (λ shut. absurd (let r = o.is_ready in let a = o.active in ground arith))

-- _drainOperations from another wait on.
drain_operations-ends :
    (w : Widget)
    → IsOpen w
    → has_work w ≡ false
    → Advances (2 + 3 * length w.scripts + 5 * length w.output) w (drain_operations w)
unfolding drain_operations drain_from drain_output
drain_operations-ends w o idle =
    if_elim (λ (v : Widget). Advances (2 + 3 * length w.scripts + 5 * length w.output) w v)
      w.disposed (λ gone. absurd (let e = o.live in cc)) (λ _. from_scripts w.scripts w refl o idle)
  where
    from_output :
        (cs : List QueuedChunk) (w : Widget)
        → w.output ≡ cs
        → IsOpen w
        → is_empty cs ≡ true
        → Advances (2 + 3 * length w.scripts + 5 * length w.output) w (drain_output cs w)
    from_output (c ∷ cs) w e o no_output = absurd (cc)
    from_output [] w e o no_output = record {
      opens = record { is_ready = o.is_ready; active = o.active; live = o.live };
      same_total = refl;
      less = omega arith;
    }

    from_scripts :
        (ss : List Script) (w : Widget)
        → w.scripts ≡ ss
        → IsOpen w
        → has_work w ≡ false
        → Advances (2 + 3 * length w.scripts + 5 * length w.output) w (drain_from ss w)
    from_scripts (s ∷ ss) w e o idle = absurd (let some_left = ap is_empty e in ground arith)
    from_scripts [] w e o idle =
        if_elim (λ (v : Widget). Advances (2 + 3 * length w.scripts + 5 * length w.output) w v)
          (w.is_ready && w.active)
          (λ _.
            from_output w.output w refl o (let r = o.is_ready in let a = o.active in ground arith))
          (λ shut. absurd (let r = o.is_ready in let a = o.active in ground arith))

pub Advances-weaken : (m n : ℕ) (w v : Widget) → m ≤ n → Advances m w v → Advances n w v
Advances-weaken m n w v h a = record {
  opens = a.opens;
  same_total = a.same_total;
  less = omega (arith, a.less);
}

pub drain_operations-goes_on :
    (w : Widget)
    → IsOpen w
    → Advances (2 + 3 * length w.scripts + 5 * length w.output) w (drain_operations w)
drain_operations-goes_on w o = elim (Bool-cases (has_work w)) [
  | inl work ↦
      Advances-weaken (1 + 3 * length w.scripts + 5 * length w.output)
        (2 + 3 * length w.scripts + 5 * length w.output) w (drain_operations w) (omega arith)
        (drain_operations-Advances w o work)
  | inr idle ↦ drain_operations-ends w o idle
]

pub failed-Advances :
    (w : Widget) (limit : ℕ)
    → IsOpen w
    → 1 + 3 * length w.scripts + 5 * length w.output < limit
    → Advances limit w (report_fatal (record w { drain = ended }))
failed-Advances w limit o fits =
    let t = record w { drain = ended } in
    let v = report_fatal t in
    let s = report_fatal-SameFlow t in
    record {
      opens = record {
        is_ready = s.same_ready ∙ o.is_ready;
        active = s.same_active ∙ o.active;
        live = s.same_disposed ∙ o.live;
      };
      same_total =
          ap (λ x. written x ++ queued_bytes v.output) s.same_sent
          ∙ ap (λ x. written w.sent ++ queued_bytes x) s.same_output;
      less = omega (
        arith,
        ap weight (report_fatal-ended t refl),
        ap length s.same_scripts,
        ap length s.same_output,
      );
    }
