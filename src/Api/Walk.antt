-- ===== src/Api/Walk.antt =====
-- A client that walks through the pages of handleListJobs of internal/api/handlers.go, with the
-- limit and the offset in decimal.
use Prim.Native.Nat.add
use Prim.Native.Nat.mul
use mathlib.Core.List.{Perm}
use mathlib.Core.Path.{subst}
use vibls_assignment.Common.{
  ℕ, zero, suc, ◌+◌, ◌*◌, ◌^◌, ◌≤◌, ◌<◌, ◌≡◌, refl, sym, ap, ◌∙◌, some, List, [], ◌∷◌, ◌++◌, arith,
  length, take, drop, keep, All,
}
use vibls_assignment.Common.Text.{codes, decimal}
use vibls_assignment.Job.{pos}
use vibls_assignment.Strconv.{parse_int}
use vibls_assignment.Strconv.Roundtrip.{parse_int-decimal}
use vibls_assignment.Store.Rows.{JobRow, Tables, Platform, Result, ok, World, calm}
use vibls_assignment.Store.Jobs.{and_then}
use vibls_assignment.Store.Listing.{ListJobsResult, insert_desc, order_desc, scan_jobs}
use vibls_assignment.Store.Order.{IsDistinct, IsFalling, order_desc-IsFalling, order_desc-perm}
use vibls_assignment.Store.Paging.{matches, page, list_jobs-calm}
use vibls_assignment.Api.Http.{Response}
use vibls_assignment.Api.Read.{ListQuery, options_of, listed, handle_list_jobs}

take-nil : {A : Type 0} (n : ℕ) → ◌≡◌ {A = List A} (take n []) []
take-nil zero = refl
take-nil (suc n) = refl

drop-nil : {A : Type 0} (n : ℕ) → ◌≡◌ {A = List A} (drop n []) []
drop-nil zero = refl
drop-nil (suc n) = refl

take-add : {A : Type 0} (m n : ℕ) (xs : List A) → take (m + n) xs ≡ take m xs ++ take n (drop m xs)
take-add zero n xs = ap (λ (k : ℕ). take k xs) (add.zero n)
take-add (suc m) n [] = ap (λ (k : ℕ). take k []) (add.suc m n) ∙ sym (take-nil n)
take-add (suc m) n (x ∷ xs) =
    ap (λ (k : ℕ). take k (x ∷ xs)) (add.suc m n) ∙ ap (λ (ys : List _). x ∷ ys) (take-add m n xs)

drop-add : {A : Type 0} (m n : ℕ) (xs : List A) → drop (m + n) xs ≡ drop n (drop m xs)
drop-add zero n xs = ap (λ (k : ℕ). drop k xs) (add.zero n)
drop-add (suc m) n [] = ap (λ (k : ℕ). drop k []) (add.suc m n) ∙ sym (drop-nil n)
drop-add (suc m) n (x ∷ xs) = ap (λ (k : ℕ). drop k (x ∷ xs)) (add.suc m n) ∙ drop-add m n xs

take_all : {A : Type 0} (n : ℕ) (xs : List A) → length xs ≤ n → take n xs ≡ xs
take_all zero [] h = refl
take_all zero (x ∷ xs) h = absurd (omega arith)
take_all (suc n) [] h = refl
take_all (suc n) (x ∷ xs) h = ap (λ (ys : List _). x ∷ ys) (take_all n xs (omega arith))

length-insert_desc :
    (p : Platform) (rows : List JobRow) (r : JobRow)
    → length (insert_desc p.ties (λ s. s.created_at) r rows) ≡ suc (length rows)
unfolding insert_desc
length-insert_desc p [] r = refl
length-insert_desc p (s ∷ rows) r = ground (arith, length-insert_desc p rows r)

length-order_desc :
    (p : Platform) (rows : List JobRow)
    → length (order_desc p.ties (λ s. s.created_at) rows) ≡ length rows
unfolding order_desc
length-order_desc p [] = refl
length-order_desc p (r ∷ rows) =
    length-insert_desc p _ r ∙ ap (λ (n : ℕ). suc n) (length-order_desc p rows)

-- The query with a limit and an offset.
abbrev pub asking : ListQuery → ℕ → ℕ → ListQuery
asking q limit offset = record q { limit = codes (decimal limit); offset = codes (decimal offset) }

asking-page :
    (p : Platform) (q : ListQuery) (limit offset : ℕ) (rows : List JobRow)
    → 0 < limit
    → limit < 2 ^ 63
    → offset < 2 ^ 63
    → page p (options_of (asking q limit offset)) rows
      ≡ take limit
          (drop offset (order_desc p.ties (λ r. r.created_at) (keep (matches (options_of q)) rows)))
unfolding options_of
asking-page p q zero offset rows some_rows small at_hand = absurd (omega arith)
asking-page p q (suc n) offset rows some_rows small at_hand =
    let limited : parse_int (codes (decimal (suc n))) ≡ some (pos (suc n)) =
      ground (arith, parse_int-decimal (suc n)) in
    let skipped : parse_int (codes (decimal offset)) ≡ some (pos offset) =
      ground (arith, parse_int-decimal offset) in
    rw (limited, skipped) refl

-- A number of requests, each with the limit and the next offset.
abbrev pub walk : ListQuery → ℕ → ℕ → ℕ → List ListQuery
walk q limit zero offset = []
walk q limit (suc m) offset = asking q limit offset ∷ walk q limit m (offset + limit)

-- The rows of the pages that the requests ask for, one after the other.
abbrev pub pages : Platform → List ListQuery → List JobRow → List JobRow
pages p [] rows = []
pages p (q ∷ qs) rows = page p (options_of q) rows ++ pages p qs rows

pages-walk :
    (p : Platform) (q : ListQuery) (limit m offset : ℕ) (rows : List JobRow)
    → 0 < limit
    → limit < 2 ^ 63
    → offset + m * limit < 2 ^ 63
    → pages p (walk q limit m offset) rows
      ≡ take
          (m * limit)
          (drop offset (order_desc p.ties (λ r. r.created_at) (keep (matches (options_of q)) rows)))
pages-walk p q limit zero offset rows some_rows small bound =
    ap
      (λ (k : ℕ).
        take k (
          drop offset (order_desc p.ties (λ r. r.created_at) (keep (matches (options_of q)) rows))))
      (sym (mul.zero limit))
pages-walk p q limit (suc m) offset rows some_rows small bound =
    let sorted = order_desc p.ties (λ r. r.created_at) (keep (matches (options_of q)) rows) in
    let next : offset + limit + m * limit < 2 ^ 63 = omega (arith, mul.suc m limit) in
    let first =
      asking-page p q limit offset rows some_rows small (omega (arith, mul.suc m limit)) in
    let rest = pages-walk p q limit m (offset + limit) rows some_rows small next in
    ap (λ (ys : List JobRow). ys ++ pages p (walk q limit m (offset + limit)) rows) first
    ∙ ap (λ (ys : List JobRow). take limit (drop offset sorted) ++ ys)
        (rest ∙ ap (take (m * limit)) (drop-add offset limit sorted))
    ∙ sym (take-add limit (m * limit) (drop offset sorted))
    ∙ ap (λ (k : ℕ). take k (drop offset sorted)) (sym (mul.suc m limit))

-- What a request is answered with, for its page.
abbrev pub page_answer : Platform → ListQuery → Tables → Response
page_answer p q t = listed (
    and_then (scan_jobs p (page p (options_of q) t.jobs))
      (λ jobs. ok (record { jobs = jobs; total = length (keep (matches (options_of q)) t.jobs) })))

handle_list_jobs-page :
    (p : Platform) (a : ListQuery) (t : Tables)
    → handle_list_jobs p a (calm t) ≡ (page_answer p a t, calm t)
unfolding handle_list_jobs
handle_list_jobs-page p a t =
    ap (λ (x : Result ListJobsResult × World). (listed x.0, x.1))
      (list_jobs-calm p (options_of a) t)

-- Calm, if no two of the jobs that meet the query's filters were created at one instant, for a
-- client that asks for pages of one positive limit, in decimal, each time moving the offset on by
-- the limit, with numbers below 2^63: every request is answered from its page, or with 500 if a row
-- of it cannot be read; and if the pages have room for all these jobs, then one after the other they
-- hold exactly these jobs, each as often as the table does, and each job is strictly newer than
-- those behind it.
pub handle_list_jobs-walk :
    (p : Platform) (q : ListQuery) (t : Tables) (limit m : ℕ)
    → 0 < limit
    → limit < 2 ^ 63
    → m * limit < 2 ^ 63
    → IsDistinct (λ r. r.created_at) (keep (matches (options_of q)) t.jobs)
    → length (keep (matches (options_of q)) t.jobs) ≤ m * limit
    → All (λ a. handle_list_jobs p a (calm t) ≡ (page_answer p a t, calm t)) (walk q limit m 0)
      × Perm (pages p (walk q limit m 0) t.jobs) (keep (matches (options_of q)) t.jobs)
      × IsFalling (λ r. r.created_at) (pages p (walk q limit m 0) t.jobs)
handle_list_jobs-walk p q t limit m some_rows small bound apart room =
    let wanted = keep (matches (options_of q)) t.jobs in
    let sorted = order_desc p.ties (λ r. r.created_at) wanted in
    let all_pages =
      pages-walk p q limit m 0 t.jobs some_rows small (omega (arith, bound))
      ∙ take_all (m * limit) sorted (omega (arith, room, length-order_desc p wanted)) in
    (
      answered (walk q limit m 0),
      subst (λ rows. Perm rows wanted) (sym all_pages)
          (order_desc-perm (λ r. r.created_at) p.ties wanted),
      subst (IsFalling (λ r. r.created_at)) (sym all_pages)
          (order_desc-IsFalling (λ r. r.created_at) p.ties wanted apart),
    )
  where
    answered :
        (qs : List ListQuery)
        → All (λ a. handle_list_jobs p a (calm t) ≡ (page_answer p a t, calm t)) qs
    answered [] = tt
    answered (a ∷ qs) = (handle_list_jobs-page p a t, answered qs)
