-- ===== src/TextIndex/Cache.antt =====
-- index/cache.go: parsed indexes are kept, in the cache of Lru.antt with half of the budget as the share
-- of one. The files are a parameter: what os.ReadFile and the size of os.Stat give for a path. Indexes
-- are never changed once written, so both give the same every time.
use opentrace.Base.{
  ℕ, ◌+◌, ◌≡◌, refl, sym, List, [], ◌∷◌, Bytes, All, length, Option, none, some, Result, ok, err,
  ◌>>=◌, bytes_eq, bytes_eq_iff, bytes_eq-eq, Bool-cases, inl, inr, ◌==◌,
}
use opentrace.Lru.{Eq, Item, Cache, new_cache, get, put}
use opentrace.Lru.Contents.{GetWell, get-GetWell, put-All}
use opentrace.TextIndex.Builder.{IndexTerm}
use opentrace.TextIndex.Reader.{Reader, IndexError, unreadable, open_reader}

instance abbrev pub path_eq : Eq Bytes
path_eq = record { same = bytes_eq; same_iff = bytes_eq_iff }

-- `size += int64(len(term.term)) + 24`
abbrev terms_size : List IndexTerm → ℕ
terms_size [] = 0
terms_size (t ∷ ts) = length t.term + 24 + terms_size ts

abbrev size_or_zero : Option ℕ → ℕ
size_or_zero none = 0
size_or_zero (some n) = n

abbrev contents : Option Bytes → Result IndexError Bytes
contents none = err unreadable
contents (some bytes) = ok bytes

module _ (read_file : Bytes → Option Bytes) (file_size : Bytes → Option ℕ) where
  unfoldable pub open_path : Bytes → Result IndexError Reader
  open_path path = do bytes ← contents (read_file path); open_reader bytes

  -- Only a reader that opened is kept.
  abbrev keep_reader : Bytes → Cache Bytes Reader → Result IndexError Reader → Cache Bytes Reader
  keep_reader path c (err e) = c
  keep_reader path c (ok r) = put 2 path r (size_or_zero (file_size path) + terms_size r.terms) c

  abbrev get_or_load :
      Bytes
      → Option Reader × Cache Bytes Reader
      → Result IndexError Reader × Option (Cache Bytes Reader)
  get_or_load path (some r, c) = (ok r, some c)
  get_or_load path (none, c) = (open_path path, some (keep_reader path c (open_path path)))

  -- A nil *Cache is `none`. The second lookup, in the single flight, is for other goroutines.
  unfoldable pub open_cached :
      Bytes → Option (Cache Bytes Reader) → Result IndexError Reader × Option (Cache Bytes Reader)
  open_cached path none = (open_path path, none)
  open_cached path (some c) = get_or_load path (get path c)

  abbrev pub open_all : List Bytes → Option (Cache Bytes Reader) → List (Result IndexError Reader)
  open_all [] c = []
  open_all (p ∷ ps) c = let (r, c') = open_cached p c in r ∷ open_all ps c'

  abbrev pub open_each : List Bytes → List (Result IndexError Reader)
  open_each [] = []
  open_each (p ∷ ps) = open_path p ∷ open_each ps

  abbrev IsFresh : Item Bytes Reader → Type 0
  IsFresh x = open_path x.key ≡ ok x.value

  abbrev AllFresh : Option (Cache Bytes Reader) → Type 0
  AllFresh none = Unit {0}
  AllFresh (some c) = All IsFresh c.items

  keep_reader-AllFresh :
      (path : Bytes) (c : Cache Bytes Reader) (r : Result IndexError Reader)
      → open_path path ≡ r
      → All IsFresh c.items
      → All IsFresh (keep_reader path c r).items
  keep_reader-AllFresh path c (err e) eq h = h
  keep_reader-AllFresh path c (ok r) eq h =
      put-All IsFresh 2 path r (size_or_zero (file_size path) + terms_size r.terms) c eq h

  get_or_load-AllFresh :
      (path : Bytes) (got : Option Reader × Cache Bytes Reader)
      → GetWell IsFresh path got
      → ((get_or_load path got).0 ≡ open_path path) × AllFresh (get_or_load path got).1
  get_or_load-AllFresh path (none, c) h =
      (refl, keep_reader-AllFresh path c (open_path path) refl h)
  get_or_load-AllFresh path (some r, c) ((x, s, fresh, v), h) =
      (sym (rw (bytes_eq-eq x.key path s, v) at fresh), h)

  open_cached-AllFresh :
      (path : Bytes) (c : Option (Cache Bytes Reader))
      → AllFresh c
      → ((open_cached path c).0 ≡ open_path path) × AllFresh (open_cached path c).1
  unfolding open_cached
  open_cached-AllFresh path none h = (refl, tt)
  open_cached-AllFresh path (some c) h =
      get_or_load-AllFresh path (get path c) (get-GetWell IsFresh path c h)

  open_all_from :
      (ps : List Bytes) (c : Option (Cache Bytes Reader))
      → AllFresh c
      → open_all ps c ≡ open_each ps
  open_all_from [] c h = refl
  open_all_from (p ∷ ps) c h =
      let (same, fresh) = open_cached-AllFresh p c h in
      rw (same, open_all_from ps (open_cached p c).1 fresh) refl

  new_cache-AllFresh : (budget : ℕ) → AllFresh (new_cache budget)
  unfolding new_cache
  new_cache-AllFresh budget = elim (Bool-cases (budget == 0)) [
    | inl e ↦ rw (new_cache, e) tt
    | inr e ↦ rw (new_cache, e) tt
  ]

  -- Whatever the files are and whatever the budget, opening any indexes one after the other through
  -- a new cache gives the same readers and errors as opening each from its file.
  pub open_all-open_each :
      (ps : List Bytes) (budget : ℕ) → open_all ps (new_cache budget) ≡ open_each ps
  open_all-open_each ps budget = open_all_from ps (new_cache budget) (new_cache-AllFresh budget)
