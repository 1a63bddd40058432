-- ===== src/Tests/Records.antt =====
-- The log, the journal, error texts and the engine's helpers on concrete inputs.
use sora_client.Prelude.{Bool, ℕ, ◌-◌, ◌≡◌, refl, true, false, none, [], ◌∷◌, arith, length, min}
use mathlib.Core.List.{reverse}
use sora_client.Errs.{Key, Fields, Err, foreign, internal}
use sora_client.Session.Journal.{zero_event, Journal, new_journal, append, since}
use sora_client.Session.Journal.History.{Numbered, IsValid, new_journal-IsValid, append-IsValid}
use sora_client.Session.Journal.Since.{page, since_resumes}
use sora_client.Session.Journal.Race.{Shared, Reach, append-may_panic}
use sora_client.Logs.Entries.{Bytes, Filter}
use sora_client.Logs.{Settings, Center, new_center, evict_loop, write}
use sora_client.Logs.Bounds.{IsBounded, new_center-IsBounded, write-IsBounded}
use sora_client.Logs.Sequence.{IsNumbered, write-IsNumbered}
use sora_client.Logs.Query.{matching}
use sora_client.Logs.Pages.{pages, pages-matching}

abbrev cause : Err
cause = foreign "connection refused"

abbrev no_retry : Key → Bool
no_retry k = false

abbrev unclassified : Err → Fields
unclassified e = record {
  code = internal;
  key = "";
  detail = "";
  retryable = false;
  retry_after = 0;
}

-- A journal of three events that keeps two.
abbrev first_journal : Journal
unfolding new_journal append
first_journal = (append zero_event 7 (new_journal 2)).1

abbrev third_journal : Journal
unfolding append
third_journal = (append zero_event 9 (append zero_event 8 first_journal).1).1

first_journal-IsValid : IsValid first_journal
unfolding new_journal first_journal append
first_journal-IsValid =
    append-IsValid zero_event 7 (new_journal 2) (new_journal-IsValid 2) (omega arith)

third_journal-IsValid : IsValid third_journal
unfolding first_journal
third_journal-IsValid =
    append-IsValid zero_event 9 (append zero_event 8 first_journal).1
      (append-IsValid zero_event 8 first_journal first_journal-IsValid (omega arith)) (omega arith)

append-IsValid_example : IsValid (append zero_event 7 (new_journal 2)).1
unfolding new_journal
append-IsValid_example =
    append-IsValid zero_event 7 (new_journal 2) (new_journal-IsValid 2) (omega arith)

since_resumes_example :
    Numbered 1 (since 1 1 third_journal)
    × (length (since 1 1 third_journal) ≡ min (page 1 third_journal) (third_journal.next - 1))
unfolding third_journal first_journal
since_resumes_example =
    since_resumes 1 1 third_journal third_journal-IsValid (omega arith) (omega arith)

abbrev one_subscriber : Shared
one_subscriber = record { subs = 4 ∷ []; closed = []; pending = []; panicked = false }

append-may_panic_example : (t : Shared) × Reach one_subscriber t × (t.panicked ≡ true)
append-may_panic_example = append-may_panic 4 [] one_subscriber refl refl

abbrev as_is : Bytes → Bytes
as_is s = s

abbrev line : ℕ → Bytes
line c = 65 ∷ c ∷ 10 ∷ []

abbrev small_settings : Settings
small_settings = record {
  capture_level = 2;
  record_destinations = false;
  max_entries = 2;
  max_bytes = 1000;
}

abbrev any_entry : Filter
any_entry = record {
  min_level = 1;
  sources = [];
  contains = [];
  pattern = none;
  since = 0;
  until = 0;
}

abbrev after_write : ℕ → Center → Center
after_write c center = write as_is as_is (1 ∷ []) (2 ∷ []) 50 0 3 (9 ∷ []) (line c) center

abbrev empty_center : Center
empty_center = new_center small_settings

abbrev two_lines : Center
two_lines = after_write 67 (after_write 66 empty_center)

write-IsBounded_example : IsBounded (after_write 66 empty_center)
write-IsBounded_example =
    write-IsBounded as_is as_is (1 ∷ []) (2 ∷ []) 50 0 3 (9 ∷ []) (line 66) empty_center
      (new_center-IsBounded small_settings)

empty_center-IsNumbered : IsNumbered empty_center
unfolding new_center
empty_center-IsNumbered = omega arith

one_line-IsNumbered : IsNumbered (after_write 66 empty_center)
unfolding new_center
one_line-IsNumbered =
    write-IsNumbered as_is as_is (1 ∷ []) (2 ∷ []) 50 0 3 (9 ∷ []) (line 66) empty_center
      (omega arith) empty_center-IsNumbered

two_lines-IsBounded : IsBounded two_lines
two_lines-IsBounded =
    write-IsBounded as_is as_is (1 ∷ []) (2 ∷ []) 50 0 3 (9 ∷ []) (line 67)
      (after_write 66 empty_center) write-IsBounded_example

two_lines-IsNumbered : IsNumbered two_lines
unfolding new_center write
two_lines-IsNumbered =
    write-IsNumbered as_is as_is (1 ∷ []) (2 ∷ []) 50 0 3 (9 ∷ []) (line 67)
      (after_write 66 empty_center) (omega arith) one_line-IsNumbered

-- Two entries where one is allowed.
abbrev crowded : Center
crowded = record two_lines { settings = record small_settings { max_entries = 1 } }

pages-matching_example :
    pages as_is as_is 5 any_entry 0 1 two_lines ≡ reverse (matching as_is as_is any_entry two_lines)
unfolding new_center write evict_loop
pages-matching_example =
    pages-matching as_is as_is 5 any_entry 1 two_lines two_lines-IsNumbered (omega arith)
