-- ===== src/Schema/Scan.antt =====
-- The pieces of the regular expressions of packages/schema/src/sealed.ts: each reads one from the front of
-- a text and gives what it read and what follows.
use metamodels.Common.{
  append, ℕ, zero, suc, String, ◌≡◌, ap, Bool, true, false, ◌&&◌, Option, none, some, ◌==◌,
  if◌then◌else◌, and_split, same_num,
}
use Prim.Native.Char.{Char, code}
use Prim.Native.String.append

abbrev more : Char → Option (String × String) → Option (String × String)
more c none = none
more c (some (k, rest)) = some (String.◌∷◌ c k, rest)

-- `p{n}`
unfoldable pub exactly : (ℕ → Bool) → ℕ → String → Option (String × String)
exactly p zero s = some (String.[], s)
exactly p (suc n) String.[] = none
exactly p (suc n) (String.◌∷◌ c s) =
    let rest = exactly p n s in if p (code c) then more c rest else none

-- `p*`
unfoldable pub as_many : (ℕ → Bool) → String → String × String
as_many p String.[] = (String.[], String.[])
as_many p (String.◌∷◌ c s) =
    let rest = as_many p s in
    if p (code c) then (String.◌∷◌ c rest.0, rest.1) else (String.[], String.◌∷◌ c s)

-- A literal.
unfoldable pub literally : String → String → Option String
literally String.[] s = some s
literally (String.◌∷◌ c p) String.[] = none
literally (String.◌∷◌ c p) (String.◌∷◌ d s) =
    let rest = literally p s in if code c == code d then rest else none

-- A text of `n` characters of the class, and one of any number of them.
unfoldable pub fits : (ℕ → Bool) → ℕ → String → Bool
fits p zero String.[] = true
fits p zero (String.◌∷◌ c s) = false
fits p (suc n) String.[] = false
fits p (suc n) (String.◌∷◌ c s) = p (code c) && fits p n s

unfoldable pub only : (ℕ → Bool) → String → Bool
only p String.[] = true
only p (String.◌∷◌ c s) = p (code c) && only p s

pub exactly-append :
    (p : ℕ → Bool) (n : ℕ) (k s : String)
    → fits p n k ≡ true
    → exactly p n (append k s) ≡ some (k, s)
unfolding exactly fits
exactly-append p zero String.[] s h = rw (append.nil s)
exactly-append p zero (String.◌∷◌ c k) s h = cc
exactly-append p (suc n) String.[] s h = cc
exactly-append p (suc n) (String.◌∷◌ c k) s h =
    let (t, hs) = and_split (p (code c)) (fits p n k) h in
    rw (append.cons c k s, t, exactly-append p n k s hs)

pub as_many-append :
    (p : ℕ → Bool) (k : String) (c : Char) (s : String)
    → only p k ≡ true
    → p (code c) ≡ false
    → as_many p (append k (String.◌∷◌ c s)) ≡ (k, String.◌∷◌ c s)
unfolding as_many only
as_many-append p String.[] c s h stop = rw (append.nil (String.◌∷◌ c s), stop)
as_many-append p (String.◌∷◌ d k) c s h stop =
    let (t, hs) = and_split (p (code d)) (only p k) h in
    rw (append.cons d k (String.◌∷◌ c s), t, as_many-append p k c s hs stop)

pub literally-append : (p s : String) → literally p (append p s) ≡ some s
unfolding literally
literally-append String.[] s = ap some (append.nil s)
literally-append (String.◌∷◌ c p) s =
    rw (append.cons c p s, same_num (code c), literally-append p s)

append-colon : (s : String) → append ":" s ≡ String.◌∷◌ ":" s
append-colon s = rw (append.cons ":" String.[] s, append.nil s)

pub as_many-colon :
    (p : ℕ → Bool) (k s : String)
    → only p k ≡ true
    → p b':' ≡ false
    → as_many p (append k (append ":" s)) ≡ (k, append ":" s)
as_many-colon p k s h stop = rw (append-colon s, as_many-append p k ":" s h stop)
