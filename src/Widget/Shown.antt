-- ===== src/Widget/Shown.antt =====
-- What a page shows that gets the writes of XtermWebTerminalState of xterm_web_terminal.dart: a write
-- with a reset replaces it, and another write is appended.
use termethis.Base.{
  ℕ, ◌≡◌, refl, sym, ap, ◌∙◌, Bool, true, false, List, [], ◌∷◌, ◌++◌, if◌then◌else◌, All,
  append_assoc, append-nil,
}
use termethis.Widget.{Widget, QueuedChunk, Sent, ran, wrote, chunks_for}
use termethis.Widget.Chunks.{Keeps, StartsWith, queued_bytes, chunks_for-IsCut}

-- One write on the page.
abbrev pub put : Bool → List ℕ → List ℕ → List ℕ
put reset bytes page = if reset then bytes else page ++ bytes

abbrev pub shown_from : List ℕ → List Sent → List ℕ
shown_from page [] = page
shown_from page (ran s ∷ rest) = shown_from page rest
shown_from page (wrote bytes reset id ∷ rest) = shown_from (put reset bytes page) rest

abbrev pub queued_onto : List ℕ → List QueuedChunk → List ℕ
queued_onto page [] = page
queued_onto page (c ∷ cs) = queued_onto (put c.reset c.bytes page) cs

-- What the page shows when it has got what is queued, too.
abbrev pub shown : Widget → List ℕ
shown w = queued_onto (shown_from [] w.sent) w.output

pub shown_from-append :
    (page : List ℕ) (xs ys : List Sent)
    → shown_from page (xs ++ ys) ≡ shown_from (shown_from page xs) ys
shown_from-append page [] ys = refl
shown_from-append page (ran s ∷ xs) ys = shown_from-append page xs ys
shown_from-append page (wrote bytes reset id ∷ xs) ys =
    shown_from-append (put reset bytes page) xs ys

pub queued_onto-append :
    (page : List ℕ) (xs ys : List QueuedChunk)
    → queued_onto page (xs ++ ys) ≡ queued_onto (queued_onto page xs) ys
queued_onto-append page [] ys = refl
queued_onto-append page (c ∷ cs) ys = queued_onto-append (put c.reset c.bytes page) cs ys

queued_onto-Keeps :
    (page : List ℕ) (cs : List QueuedChunk)
    → All Keeps cs
    → queued_onto page cs ≡ page ++ queued_bytes cs
queued_onto-Keeps page [] h = sym (append-nil page)
queued_onto-Keeps page (c ∷ cs) h =
    ap (λ (r : Bool). queued_onto (put r c.bytes page) cs) h.0
    ∙ queued_onto-Keeps (page ++ c.bytes) cs h.1
    ∙ append_assoc page c.bytes (queued_bytes cs)

queued_onto-StartsWith :
    (page : List ℕ) (reset : Bool) (cs : List QueuedChunk)
    → StartsWith reset cs
    → queued_onto page cs ≡ put reset (queued_bytes cs) page
queued_onto-StartsWith page reset [] h = absurd h
queued_onto-StartsWith page true (c ∷ cs) h =
    ap (λ (r : Bool). queued_onto (put r c.bytes page) cs) h.0 ∙ queued_onto-Keeps c.bytes cs h.1
queued_onto-StartsWith page false (c ∷ cs) h =
    ap (λ (r : Bool). queued_onto (put r c.bytes page) cs) h.0
    ∙ queued_onto-Keeps (page ++ c.bytes) cs h.1
    ∙ append_assoc page c.bytes (queued_bytes cs)

-- The chunks of output are one write of it.
pub queued_onto-chunks_for :
    (page bytes : List ℕ) (n : ℕ) (reset : Bool)
    → queued_onto page (chunks_for bytes n reset) ≡ put reset bytes page
unfolding chunks_for
queued_onto-chunks_for page [] n true = refl
queued_onto-chunks_for page [] n false = sym (append-nil page)
queued_onto-chunks_for page (x ∷ xs) n reset =
    let cut = chunks_for-IsCut (x ∷ xs) n reset refl in
    queued_onto-StartsWith page reset (chunks_for (x ∷ xs) n reset) cut.starts
    ∙ ap (λ (b : List ℕ). put reset b page) cut.whole
