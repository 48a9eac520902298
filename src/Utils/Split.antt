-- ===== src/Utils/Split.antt =====
-- `splitString` of utils/src/utils.c, with which the kernel cuts what is typed at its console.
use ronaldinh_os_sistemas_op.Common.{
  ℕ, List, [], ◌∷◌, ◌++◌, Bool, true, false, not, Option, none, some, ◌==◌, ◌&&◌, ◌||◌,
  if◌then◌else◌,
}

-- The separators: a space, the delimiter that the kernel gives, and a new line.
unfoldable pub is_delimiter : ℕ → Bool
is_delimiter c = (c == 32) || (c == 10)

-- A token between separators is kept unless it is empty.
unfoldable pub push_token : List ℕ → List (List ℕ) → List (List ℕ)
push_token [] words = words
push_token (c ∷ cs) words = words ++ (c ∷ cs) ∷ []

-- The loop, with `inQuotes`, the character before, the text from `start` on and the words so far. A
-- quote is 34 and a backslash 92. `none` is NULL, the answer to a quote that is not closed.
unfoldable pub split_from : Bool → ℕ → List ℕ → List (List ℕ) → List ℕ → Option (List (List ℕ))
unfolding is_delimiter push_token
split_from in_quotes before token words [] =
    if in_quotes then none else some (push_token token words)
split_from in_quotes before token words (c ∷ cs) =
    let opened = split_from true c [] words cs in
    let closed = split_from false 0 [] (words ++ token ∷ []) cs in
    let separated = split_from false 0 [] (push_token token words) cs in
    let inside = split_from in_quotes c (token ++ c ∷ []) words cs in
    if (c == 34) && not (before == 92)
    then (if in_quotes then closed else opened)
    else if not in_quotes && is_delimiter c
    then separated
    else inside

-- `splitString`.
unfoldable pub split_string : List ℕ → Option (List (List ℕ))
unfolding split_from
split_string text = split_from false 0 [] [] text
