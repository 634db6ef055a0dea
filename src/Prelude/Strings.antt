-- ===== src/Prelude/Strings.antt =====
-- Methods of Python's `str` over code points: `strip`, `splitlines`, `split`, `startswith`,
-- `endswith`, `removeprefix` and `in`.
use Prim.Native.Nat.{ℕ, ◌+◌}
use mathlib.Core.Bool.{Bool, true, false, ◌&&◌, ◌||◌}
use mathlib.Core.List.{List, [], ◌∷◌, ◌++◌}
use tinyllama_inference_engi.Prelude.Tests.{leb, ◌==◌, if◌then◌else◌}
use tinyllama_inference_engi.Prelude.Lists.{length, drop, any}
use tinyllama_inference_engi.Prelude.Codes.{Text, same}

-- `str.isspace` of one character
unfoldable pub is_white : ℕ → Bool
is_white c =
    (leb 9 c && leb c 13)
    || ((leb 28 c && leb c 32)
        || (any (λ w. c == w) (133 ∷ 160 ∷ 5760 ∷ 8232 ∷ 8233 ∷ 8239 ∷ 8287 ∷ 12288 ∷ [])
            || (leb 8192 c && leb c 8202)))

unfoldable pub strip_left : Text → Text
unfolding is_white
strip_left [] = []
strip_left (c ∷ t) = let more = strip_left t in if is_white c then more else c ∷ t

unfoldable pub strip_right : Text → Text
unfolding is_white
strip_right [] = []
strip_right (c ∷ t) =
    let kept = strip_right t in if is_white c && length kept == 0 then [] else c ∷ kept

-- `text.strip()`
unfoldable pub strip : Text → Text
unfolding strip_left strip_right
strip t = strip_right (strip_left t)

-- The characters that end a line; a carriage return takes a line feed with it.
unfoldable pub is_break : ℕ → Bool
is_break c =
    (leb 10 c && leb c 13) || ((leb 28 c && leb c 30) || (c == 133 || (c == 8232 || c == 8233)))

abbrev pub on_first : ℕ → List Text → List Text
on_first c [] = (c ∷ []) ∷ []
on_first c (line ∷ rest) = (c ∷ line) ∷ rest

-- The lines of a text behind a carriage return, if `after`
unfoldable pub lines_after : Bool → Text → List Text
unfolding is_break
lines_after after [] = []
lines_after after (c ∷ t) =
    let ended = [] ∷ lines_after (c == 13) t in
    let skipped = lines_after false t in
    let within = on_first c (lines_after false t) in
    if after && c == 10 then skipped else if is_break c then ended else within

-- `text.splitlines()`
unfoldable pub splitlines : Text → List Text
unfolding lines_after
splitlines = lines_after false

-- `text.split(separator)`, for a separator of one character
unfoldable pub split : ℕ → Text → List Text
split separator [] = [] ∷ []
split separator (c ∷ t) =
    let parts = split separator t in if c == separator then [] ∷ parts else on_first c parts

-- `separator.join(parts)`
unfoldable pub join_with : Text → List Text → Text
join_with separator [] = []
join_with separator (part ∷ []) = part
join_with separator (part ∷ next ∷ rest) = part ++ (separator ++ join_with separator (next ∷ rest))

-- `text.startswith(prefix)`
unfoldable pub starts_with : Text → Text → Bool
starts_with prefix [] = length prefix == 0
starts_with [] (c ∷ t) = true
starts_with (p ∷ ps) (c ∷ t) = p == c && starts_with ps t

-- `text.removeprefix(prefix)`
unfoldable pub remove_prefix : Text → Text → Text
unfolding starts_with
remove_prefix prefix t = if starts_with prefix t then drop (length prefix) t else t

-- `suffix`, the argument of `text.endswith(suffix)`, ends the text.
unfoldable pub ends_with : Text → Text → Bool
ends_with suffix [] = length suffix == 0
ends_with suffix (c ∷ t) = same suffix (c ∷ t) || ends_with suffix t

-- `part in text`
unfoldable pub contains : Text → Text → Bool
unfolding starts_with
contains part [] = length part == 0
contains part (c ∷ t) = starts_with part (c ∷ t) || contains part t

-- `texts.count(t)`
unfoldable pub count : Text → List Text → ℕ
count t [] = 0
count t (s ∷ rest) = (if same s t then 1 else 0) + count t rest
