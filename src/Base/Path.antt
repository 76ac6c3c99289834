-- ===== src/Base/Path.antt =====
-- Slash-separated paths: path.Clean, and filepath.Join on Unix.
use hali_client.Base.Tests.{if◌then◌else◌, ◌==◌}
use hali_client.Base.Lists.{keep}
use hali_client.Base.Text.{Str, str_eq, is_empty, split, join}
use mathlib.Core.Bool.{Bool, false, ◌||◌}
use mathlib.Core.List.{List, [], ◌∷◌, reverse}
use hali_client.Base.Tests.{not}

abbrev dot : Str
dot = b'.' ∷ []

abbrev pub dot_dot : Str
dot_dot = b'.' ∷ b'.' ∷ []

-- One path element; the elements kept so far are innermost first.
unfoldable pub clean_step : Bool → List Str → Str → List Str
unfolding str_eq is_empty
clean_step rooted [] seg =
    if is_empty seg || str_eq seg dot
    then []
    else if str_eq seg dot_dot
    then (if rooted then [] else seg ∷ [])
    else seg ∷ []
clean_step rooted (top ∷ kept) seg =
    if is_empty seg || str_eq seg dot
    then top ∷ kept
    else if str_eq seg dot_dot
    then (if str_eq top dot_dot then seg ∷ top ∷ kept else kept)
    else seg ∷ top ∷ kept

unfoldable pub clean_segs : Bool → List Str → List Str → List Str
unfolding clean_step
clean_segs rooted kept [] = reverse kept
clean_segs rooted kept (seg ∷ segs) = clean_segs rooted (clean_step rooted kept seg) segs

abbrev pub is_rooted : Str → Bool
is_rooted [] = false
is_rooted (c ∷ cs) = c == b'/'

unfoldable pub clean_text : Bool → Str → Str
clean_text rooted body = if rooted then b'/' ∷ body else if is_empty body then dot else body

-- path.Clean
unfoldable pub clean : Str → Str
clean p =
    let rooted = is_rooted p in clean_text rooted (join b'/' (clean_segs rooted [] (split b'/' p)))

-- filepath.Join: the empty elements are left out
unfoldable pub join_parts : List Str → Str
join_parts [] = []
join_parts (p ∷ ps) = clean (join b'/' (p ∷ ps))

unfoldable pub join_path : List Str → Str
join_path elems = join_parts (keep (λ e. not (is_empty e)) elems)
