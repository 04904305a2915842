-- ===== src/GitlabWebhook/ChangedRanges/Reached.antt =====
-- What the loop has reached of a diff: in a range, in the open one or at the pending deletion.
use my_pr_agent.Prelude.{
  ℕ, ◌+◌, ◌≡◌, refl, Bool, true, false, ◌&&◌, ◌||◌, Option, none, some, List, ◌++◌, leb, ltb,
  nat_eq, ◌==◌, any_of, any_of-append, arith,
}
use my_pr_agent.Text.{Text}
use my_pr_agent.SuggestionMatcher.{Span}
use my_pr_agent.GitlabWebhook.ChangedRanges.{
  Scanning, closing, flushing, close_range, flush_pending_deletion, scan_added, scan_removed,
  scan_context, scan_hunk, scan_body,
}

abbrev pub in_span : ℕ → Span → Bool
in_span n span = leb span.0 n && leb n span.1

-- In a range, in the open one or at the pending deletion.
abbrev pub in_open : Option ℕ → Option ℕ → ℕ → Bool
in_open (some start) (some line) n = leb start n && ltb n line
in_open _ _ n = false

abbrev pub in_pending : Option ℕ → Option ℕ → ℕ → Bool
in_pending (some start) (some line) n = start == n
in_pending _ _ n = false

abbrev pub reaches : Scanning → ℕ → Bool
reaches s n =
    any_of (in_span n) s.ranges
    || in_open s.range_start s.new_line n
    || in_pending s.pending_deletion_start s.new_line n

closing-keeps :
    (start line : Option ℕ) (deleted : Bool) (n : ℕ)
    → in_open start line n ≡ true
    → any_of (in_span n) (closing start line deleted) ≡ true
closing-keeps none line deleted n h = ground arith
closing-keeps (some start) none deleted n h = ground arith
closing-keeps (some start) (some line) deleted n h = ground arith

flushing-keeps :
    (start line : Option ℕ) (n : ℕ)
    → in_pending start line n ≡ true
    → any_of (in_span n) (flushing start line) ≡ true
flushing-keeps none line n h = ground arith
flushing-keeps (some start) none n h = ground arith
flushing-keeps (some start) (some line) n h = ground arith

pub reaches-close_range :
    (s : Scanning) (n : ℕ) → reaches s n ≡ true → reaches (close_range s) n ≡ true
unfolding close_range
reaches-close_range s n h =
    let added = closing s.range_start s.new_line s.deleted_before_addition in
    ground (
      arith,
      any_of-append (in_span n) s.ranges added,
      closing-keeps s.range_start s.new_line s.deleted_before_addition n,
    )

pub reaches-flush :
    (s : Scanning) (n : ℕ) → reaches s n ≡ true → reaches (flush_pending_deletion s) n ≡ true
unfolding flush_pending_deletion
reaches-flush s n h =
    let added = flushing s.pending_deletion_start s.new_line in
    ground (
      arith,
      any_of-append (in_span n) s.ranges added,
      flushing-keeps s.pending_deletion_start s.new_line n,
    )

-- Both together put it in a range.
pub settled :
    (s : Scanning) (n : ℕ)
    → reaches s n ≡ true
    → any_of (in_span n) (flush_pending_deletion (close_range s)).ranges ≡ true
unfolding close_range flush_pending_deletion
settled s n h =
    let closed = closing s.range_start s.new_line s.deleted_before_addition in
    let flushed = flushing s.pending_deletion_start s.new_line in
    ground (
      arith,
      any_of-append (in_span n) s.ranges closed,
      any_of-append (in_span n) (s.ranges ++ closed) flushed,
      closing-keeps s.range_start s.new_line s.deleted_before_addition n,
      flushing-keeps s.pending_deletion_start s.new_line n,
    )

pub reaches-scan_added :
    (k : ℕ) (s : Scanning) (n : ℕ)
    → s.new_line ≡ some k
    → reaches s n ≡ true
    → reaches (scan_added k s) n ≡ true
unfolding scan_added flush_pending_deletion
reaches-scan_added k s n e h = ground (arith, e, reaches-flush s n h)

pub reaches-scan_removed :
    (k : ℕ) (line : Text) (s : Scanning) (n : ℕ)
    → s.new_line ≡ some k
    → reaches s n ≡ true
    → reaches (scan_removed k line s) n ≡ true
unfolding scan_removed close_range
reaches-scan_removed k line s n e h = ground (arith, e, reaches-close_range s n h)

pub reaches-scan_context :
    (k : ℕ) (s : Scanning) (n : ℕ)
    → s.new_line ≡ some k
    → reaches s n ≡ true
    → reaches (scan_context k s) n ≡ true
unfolding scan_context close_range flush_pending_deletion
reaches-scan_context k s n e h = ground (arith, e, settled s n h)

pub reaches-scan_hunk :
    (k : ℕ) (s : Scanning) (n : ℕ) → reaches s n ≡ true → reaches (scan_hunk k s) n ≡ true
unfolding scan_hunk close_range flush_pending_deletion
reaches-scan_hunk k s n h = ground (arith, settled s n h)

-- The open range begins before the next line, and a pending deletion stands right there.
abbrev pub is_fit : Option ℕ → Option ℕ → Option ℕ → Bool
is_fit none none line = true
is_fit none (some pending) (some line) = pending == line
is_fit (some start) none (some line) = leb start line
is_fit (some start) (some pending) (some line) = leb start line && pending == line
is_fit _ _ none = false

abbrev pub is_sound : Scanning → Bool
is_sound s = is_fit s.range_start s.pending_deletion_start s.new_line

pub scanned-added :
    (k : ℕ) (s : Scanning)
    → s.new_line ≡ some k
    → is_sound s ≡ true
    → (is_sound (scan_added k s) ≡ true) × ((k == 0 || reaches (scan_added k s) k) ≡ true)
unfolding scan_added flush_pending_deletion
scanned-added k s e h = ground (arith, e)

pub scanned-removed :
    (k : ℕ) (line : Text) (s : Scanning)
    → s.new_line ≡ some k
    → is_sound s ≡ true
    → (is_sound (scan_removed k line s) ≡ true)
      × ((k == 0 || reaches (scan_removed k line s) k) ≡ true)
unfolding scan_removed close_range
scanned-removed k line s e h = ground (arith, e)

pub scanned-context :
    (k : ℕ) (s : Scanning)
    → s.new_line ≡ some k
    → is_sound s ≡ true
    → is_sound (scan_context k s) ≡ true
unfolding scan_context close_range flush_pending_deletion
scanned-context k s e h = ground (arith, e)

pub scanned-hunk : (k : ℕ) (s : Scanning) → is_sound s ≡ true → is_sound (scan_hunk k s) ≡ true
unfolding scan_hunk close_range flush_pending_deletion
scanned-hunk k s h = ground arith

pub next-added : (k : ℕ) (s : Scanning) → (scan_added k s).new_line ≡ some (k + 1)
unfolding scan_added
next-added k s = refl

pub next-removed :
    (k : ℕ) (line : Text) (s : Scanning) → (scan_removed k line s).new_line ≡ s.new_line
unfolding scan_removed close_range
next-removed k line s = refl

pub next-context : (k : ℕ) (s : Scanning) → (scan_context k s).new_line ≡ some (k + 1)
unfolding scan_context
next-context k s = refl

pub next-hunk : (k : ℕ) (s : Scanning) → (scan_hunk k s).new_line ≡ some k
unfolding scan_hunk
next-hunk k s = refl

abbrev pub ended : Scanning → List Span
ended s = (flush_pending_deletion (close_range s)).ranges

pub reaches-scan_body :
    (k : ℕ) (line : Text) (s : Scanning) (n : ℕ)
    → s.new_line ≡ some k
    → reaches s n ≡ true
    → reaches (scan_body k line s) n ≡ true
unfolding scan_body
reaches-scan_body k line s n e h = ground (
  arith,
  reaches-scan_added k s n e h,
  reaches-scan_removed k line s n e h,
  reaches-scan_context k s n e h,
)

pub is_sound-scan_body :
    (k : ℕ) (line : Text) (s : Scanning)
    → s.new_line ≡ some k
    → is_sound s ≡ true
    → is_sound (scan_body k line s) ≡ true
unfolding scan_body
is_sound-scan_body k line s e h =
    ground (arith, scanned-added k s e h, scanned-removed k line s e h, scanned-context k s e h)
