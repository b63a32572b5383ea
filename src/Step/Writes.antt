-- ===== src/Step/Writes.antt =====
-- From the start of the page: what it acknowledges and what it hands to xterm.js, after any run.
use mathlib.Core.List.{Sublist}
use termethis.Base.{
  ◌+◌, ◌≤◌, ◌≡◌, refl, sym, ap, ◌∙◌, List, [], ◌++◌, arith, All, length, Text, Option, none, some,
  true, false,
}
use termethis.Browser.{Browser}
use termethis.Page.{Page, Message, posted, post}
use termethis.Page.Effects.{collect, ack_of, slice_of, seen-post-none}
use termethis.Page.Frame.{post-Same}
use termethis.Writer.Progress.{IsSlice, acks, slices, written, fatals, fatal_of}
use termethis.Writer.Advance.{pending_ids, pending_bytes}
use termethis.Startup.{
  boot, initial, load_graphemes, load_webgl, WebglStart, loaded, not_created, not_loaded,
}
use termethis.Step.{Action, run}
use termethis.Step.Accounts.{
  ledger, stream, fatal_count, Accounts, asked_ids_in, asked_bytes_in, run-Accounts,
}

module _ ⦃b : Browser⦄ where
  -- Nothing pending, and nothing of the write chain done yet.
  pub record IsFresh (p : Page b) : Type 0 where
    pub idle : p.chain ≡ record { running = none; jobs = [] }
    pub no_acks : acks p ≡ []
    pub no_slices : slices p ≡ []
    pub no_fatals : fatals p ≡ []

  post-IsFresh :
      (m : Message) (p : Page b)
      → ack_of {F = b.F} (posted m) ≡ none
      → slice_of {F = b.F} (posted m) ≡ none
      → fatal_of {F = b.F} (posted m) ≡ none
      → IsFresh p
      → IsFresh (post m p)
  post-IsFresh m p ha hs hf v = record {
    idle = (post-Same m p).same_chain ∙ v.idle;
    no_acks = seen-post-none ack_of m p ha ∙ v.no_acks;
    no_slices = seen-post-none slice_of m p hs ∙ v.no_slices;
    no_fatals = seen-post-none fatal_of m p hf ∙ v.no_fatals;
  }

  initial-IsFresh : (screen : b.Screen) → IsFresh (initial screen)
  unfolding initial collect
  initial-IsFresh screen = record {
    idle = refl;
    no_acks = refl;
    no_slices = refl;
    no_fatals = refl;
  }

  load_graphemes-IsFresh : (g : Option Text) (p : Page b) → IsFresh p → IsFresh (load_graphemes g p)
  unfolding load_graphemes
  load_graphemes-IsFresh none p v = v
  load_graphemes-IsFresh (some e) p v = post-IsFresh _ p refl refl refl v

  load_webgl-IsFresh : (w : WebglStart) (p : Page b) → IsFresh p → IsFresh (load_webgl w p)
  unfolding load_webgl
  load_webgl-IsFresh loaded p v = record {
    idle = v.idle;
    no_acks = v.no_acks;
    no_slices = v.no_slices;
    no_fatals = v.no_fatals;
  }
  load_webgl-IsFresh (not_created e) p v = post-IsFresh _ p refl refl refl v
  load_webgl-IsFresh (not_loaded e) p v =
      post-IsFresh (Message.renderer_error e) (record p { has_webgl = true }) refl refl refl
        (record {
          idle = v.idle;
          no_acks = v.no_acks;
          no_slices = v.no_slices;
          no_fatals = v.no_fatals;
        })

  pub boot-IsFresh :
      (screen : b.Screen) (g : Option Text) (w : WebglStart) → IsFresh (boot screen g w)
  unfolding boot
  boot-IsFresh screen g w =
      load_webgl-IsFresh w _ (load_graphemes-IsFresh g _ (initial-IsFresh screen))

  module _ (h : b.has_channel ≡ true) (screen : b.Screen) (g : Option Text) (w : WebglStart)
      (actions : List (Action b)) where
    -- The page after a run from its start.
    abbrev pub final : Page b
    final = run actions (boot screen g w)

    accounts : Accounts (boot screen g w) final (asked_ids_in actions) (asked_bytes_in actions)
    accounts = run-Accounts h actions (boot screen g w)

    fresh : IsFresh (boot screen g w)
    fresh = boot-IsFresh screen g w

    empty_ledger : ledger (boot screen g w) ≡ []
    empty_ledger = rw (fresh.no_acks, fresh.idle)

    no_fatal_count : fatal_count (boot screen g w) ≡ 0
    no_fatal_count = rw fresh.no_fatals

    empty_stream : stream (boot screen g w) ≡ []
    empty_stream = rw (fresh.no_slices, fresh.idle)

    -- For any run from the start of the page, with a channel to the application: the acknowledged
    -- ids and then the pending ones are a sublist, in order, of the ids that were asked for, and
    -- as many ids as are missing, or more, are matched by fatal messages.
    pub acks_in_order :
        Sublist (acks final ++ pending_ids final.chain) (asked_ids_in actions)
        × (length (asked_ids_in actions)
            ≤ length (acks final ++ pending_ids final.chain) + length (fatals final))
    acks_in_order =
        (rw empty_ledger at accounts.in_order, omega (arith, accounts.complete, no_fatal_count))

    -- For any run from the start of the page, with a channel, that leaves the page not disposed
    -- and posts no fatal message: what xterm.js has been given and then what is pending are
    -- exactly the payloads of the calls, in order, so no byte is lost, doubled or moved.
    pub bytes_in_order :
        final.disposed ≡ false
        → fatals final ≡ []
        → written final ++ pending_bytes final.chain ≡ asked_bytes_in actions
    bytes_in_order live quiet =
        accounts.same_stream live (rw quiet (sym no_fatal_count))
        ∙ ap (λ x. x ++ asked_bytes_in actions) empty_stream

    -- For any run from the start of the page, with a channel: whatever has been given to xterm.js
    -- came in slices of at most 16384 bytes, none of them empty.
    pub slices_are_small : All IsSlice (slices final)
    slices_are_small = accounts.slices_fit (rw fresh.no_slices tt)
