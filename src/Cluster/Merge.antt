-- ===== src/Cluster/Merge.antt =====
-- Merging messages keeps what their entries refer to.
use recentip.Prelude.{
  ℕ, zero, suc, if◌then◌else◌, ◌+◌, ◌%◌, ◌^◌, ◌≤◌, ◌≡◌, ◌⊎◌, inl, inr, refl, ap, ◌∙◌, List, [], ◌∷◌,
  ◌++◌, append_assoc, append-nil, All, length, length-append, drop, length-drop, take-append_le,
  drop-append_le, drop-append_add, map, arith, ltb,
}
use recentip.Wire.SdEntry.{SdEntry}
use recentip.Wire.SdOption.{SdOption}
use recentip.Wire.SdMessage.{SdMessage}
use recentip.Wire.SdMessage.Endpoint.{run, referenced}
use recentip.Cluster.{rebase, add_options, add_entries, merge, saturating_add}

-- A run of options lies within the options of the message.
abbrev pub RunWithin : (start count total : ℕ) → Type 0
RunWithin start count total = (count ≡ 0) ⊎ (start + count ≤ total)

abbrev pub EntryWithin : (total : ℕ) → SdEntry → Type 0
EntryWithin total e =
    RunWithin e.index_1st_option e.num_options_1 total
    × RunWithin e.index_2nd_option e.num_options_2 total

-- The entries of a message refer to options that it has.
abbrev pub IsValid : SdMessage → Type 0
IsValid m = All (EntryWithin (length m.options)) m.entries

run-append :
    (start count : ℕ) (os more : List SdOption)
    → RunWithin start count (length os)
    → run (os ++ more) start count ≡ run os start count
run-append start count os more (inl e) = rw e refl
run-append start count os more (inr h) =
    rw (drop-append_le start os more (omega arith))
      (take-append_le count (drop start os) more (omega (arith, length-drop start os)))

run_shift :
    (before os : List SdOption) (start count : ℕ)
    → run (before ++ os) (length before + start) count ≡ run os start count
run_shift before os start count = rw (drop-append_add before os start) refl

add_options-append :
    (m : SdMessage) (os : List SdOption) → add_options m os ≡ record m { options = m.options ++ os }
unfolding add_options
add_options-append m [] = rw append-nil refl
add_options-append m (o ∷ os) =
    add_options-append _ os ∙ rw (append_assoc m.options (o ∷ []) os) refl

add_entries-map :
    (es : List SdEntry) (k : ℕ) (m : SdMessage)
    → add_entries m k es ≡ record m { entries = m.entries ++ map (rebase k) es }
unfolding add_entries
add_entries-map [] k m = rw append-nil refl
add_entries-map (e ∷ es) k m =
    add_entries-map es k _ ∙ rw (append_assoc m.entries (rebase k e ∷ []) (map (rebase k) es)) refl

pub merge_lem :
    (c m : SdMessage)
    → merge c m ≡ record c {
      options = c.options ++ m.options;
      entries = c.entries ++ map (rebase (length c.options % 2 ^ 8)) m.entries;
    }
unfolding merge
merge_lem c m =
    rw (add_options-append c m.options) (add_entries-map m.entries (length c.options % 2 ^ 8) _)

-- The start of a run behind `before` options.
abbrev shifted : (before start count : ℕ) → ℕ
shifted before start count = if ltb 0 count then saturating_add start (before % 2 ^ 8) else start

run-shifted :
    (before os : List SdOption) (start count : ℕ)
    → RunWithin start count (length os)
    → length before + length os ≤ 256
    → run (before ++ os) (shifted (length before) start count) count ≡ run os start count
run-shifted before os start zero h fits = refl
run-shifted before os start (suc count) (inl e) fits = absurd (omega arith)
run-shifted before os start (suc count) (inr h) fits =
    let e : shifted (length before) start (suc count) ≡ length before + start = ground arith in
    rw e (run_shift before os start (suc count))

referenced_before :
    (c : SdMessage) (more : List SdOption) (es : List SdEntry) (e : SdEntry)
    → EntryWithin (length c.options) e
    → referenced (record c { options = c.options ++ more; entries = es }) e ≡ referenced c e
referenced_before c more es e (h, k) = rw (
  run-append e.index_1st_option e.num_options_1 c.options more h,
  run-append e.index_2nd_option e.num_options_2 c.options more k,
)

referenced-rebase :
    (c m : SdMessage) (es : List SdEntry) (e : SdEntry)
    → EntryWithin (length m.options) e
    → length c.options + length m.options ≤ 256
    → referenced
        (record c { options = c.options ++ m.options; entries = es })
        (rebase (length c.options % 2 ^ 8) e)
      ≡ referenced m e
unfolding rebase
referenced-rebase c m es e (h, k) fits = rw (
  run-shifted c.options m.options e.index_1st_option e.num_options_1 h fits,
  run-shifted c.options m.options e.index_2nd_option e.num_options_2 k fits,
)

-- What a receiver gets from a message: its entries, whatever their indices, each with the options
-- that it refers to.
abbrev pub plain : SdEntry → SdEntry
plain e = record e { index_1st_option = 0; index_2nd_option = 0 }

abbrev pub views : SdMessage → List SdEntry → List (SdEntry × List SdOption)
views m [] = []
views m (e ∷ es) = (plain e, referenced m e) ∷ views m es

abbrev pub view : SdMessage → List (SdEntry × List SdOption)
view m = views m m.entries

views-append :
    (m : SdMessage) (xs ys : List SdEntry) → views m (xs ++ ys) ≡ views m xs ++ views m ys
views-append m [] ys = refl
views-append m (x ∷ xs) ys = ap (◌∷◌ (plain x, referenced m x)) (views-append m xs ys)

views_before :
    (c : SdMessage) (more : List SdOption) (all es : List SdEntry)
    → All (EntryWithin (length c.options)) es
    → views (record c { options = c.options ++ more; entries = all }) es ≡ views c es
views_before c more all [] v = refl
views_before c more all (e ∷ es) v =
    rw (referenced_before c more all e v.0, views_before c more all es v.1)

views-rebase :
    (c m : SdMessage) (all es : List SdEntry)
    → All (EntryWithin (length m.options)) es
    → length c.options + length m.options ≤ 256
    → views
        (record c { options = c.options ++ m.options; entries = all })
        (map (rebase (length c.options % 2 ^ 8)) es)
      ≡ views m es
views-rebase c m all [] v fits = refl
views-rebase c m all (e ∷ es) v fits =
    let kept : plain (rebase (length c.options % 2 ^ 8) e) ≡ plain e = unfold rebase in refl in
    rw (kept, referenced-rebase c m all e v.0 fits, views-rebase c m all es v.1 fits)

-- A merged message gives a receiver what the two messages give, the one after the other, if the
-- entries refer to options that their message has, and there are at most 256 options in all.
pub view-merge :
    (c m : SdMessage)
    → IsValid c
    → IsValid m
    → length c.options + length m.options ≤ 256
    → view (merge c m) ≡ view c ++ view m
view-merge c m v w fits = rw (merge_lem c m) (
    views-append
      (record c {
        options = c.options ++ m.options;
        entries = c.entries ++ map (rebase (length c.options % 2 ^ 8)) m.entries;
      })
      c.entries (map (rebase (length c.options % 2 ^ 8)) m.entries)
    ∙ rw (views_before c m.options _ c.entries v, views-rebase c m _ m.entries w fits))

RunWithin-le :
    (start count small large : ℕ)
    → RunWithin start count small
    → small ≤ large
    → RunWithin start count large
RunWithin-le start count small large (inl e) h = inl e
RunWithin-le start count small large (inr k) h = inr (omega arith)

RunWithin-shifted :
    (before start count total : ℕ)
    → RunWithin start count total
    → before + total ≤ 256
    → RunWithin (shifted before start count) count (before + total)
RunWithin-shifted before start zero total h fits = inl refl
RunWithin-shifted before start (suc count) total (inl e) fits = absurd (omega arith)
RunWithin-shifted before start (suc count) total (inr h) fits = inr (ground arith)

Within-le :
    (small large : ℕ) (es : List SdEntry)
    → small ≤ large
    → All (EntryWithin small) es
    → All (EntryWithin large) es
Within-le small large [] h v = tt
Within-le small large (e ∷ es) h v = (
  (RunWithin-le _ _ small large v.0.0 h, RunWithin-le _ _ small large v.0.1 h),
  Within-le small large es h v.1,
)

Within-rebase :
    (before total : ℕ) (es : List SdEntry)
    → before + total ≤ 256
    → All (EntryWithin total) es
    → All (EntryWithin (before + total)) (map (rebase (before % 2 ^ 8)) es)
unfolding rebase
Within-rebase before total [] fits v = tt
Within-rebase before total (e ∷ es) fits v = (
  (
    RunWithin-shifted before e.index_1st_option e.num_options_1 total v.0.0 fits,
    RunWithin-shifted before e.index_2nd_option e.num_options_2 total v.0.1 fits,
  ),
  Within-rebase before total es fits v.1,
)

All-append :
    (total : ℕ) (xs ys : List SdEntry)
    → All (EntryWithin total) xs
    → All (EntryWithin total) ys
    → All (EntryWithin total) (xs ++ ys)
All-append total [] ys v w = w
All-append total (x ∷ xs) ys v w = (v.0, All-append total xs ys v.1 w)

pub length-merge :
    (c m : SdMessage) → length (merge c m).options ≡ length c.options + length m.options
length-merge c m = rw (merge_lem c m) (length-append c.options m.options)

pub merge-IsValid :
    (c m : SdMessage)
    → IsValid c
    → IsValid m
    → length c.options + length m.options ≤ 256
    → IsValid (merge c m)
merge-IsValid c m v w fits =
    rw (merge_lem c m, length-append c.options m.options)
      (All-append _ c.entries _ (Within-le _ _ c.entries (omega arith) v)
        (Within-rebase (length c.options) (length m.options) m.entries fits w))
