-- ===== src/Parser/Progress.antt =====
-- What every call of the parser keeps and adds: the buffer stays within its maximum, and requests
-- are only appended, each of them a request of HTTP/1.1 that the parser has accepted.
use http.Base.{
  ltb-false, ℕ, suc, ◌%◌, ◌^◌, ◌≤◌, ◌≡◌, refl, sym, ◌∙◌, ap, ◌⊎◌, inl, inr, List, [], ◌∷◌, ◌++◌,
  append-nil, append_assoc, Bytes, length, length-drop, length-take, take, get_elem?, All,
  All-append, arith, Bool-cases, Option-cases, ltb, leb, ◌==◌,
}
use http.Message.{Request, lookup, stoi, Parsed, number, failed, http_header_content_length}
use http.Strings.{is_digits}
use http.Parser.{
  Parser, Outcome, returned, thrown, take_payload, take_next_payload, process_length, process_post,
}

-- A postcondition of the state, whether the call returns or throws.
abbrev pub Ensures {ℓ} : {A : Type ℓ} → (Parser → Type 0) → Outcome A → Type 0
Ensures P (returned a q) = P q
Ensures P (thrown e q) = P q

-- A GET request, or a POST request with a payload of the size that the parser allows.
abbrev pub IsServed : Request → Type 0
IsServed r =
    (r.http_version ≡ 1) × ((r.http_method ≡ 1) ⊎ ((r.http_method ≡ 2) × (length r.payload ≤ 2048)))

pub record Progress (p q : Parser) : Type 0 where
  pub added : List Request
  pub appended : q.requests ≡ p.requests ++ added
  pub served : All IsServed added
  pub same_max : q.http_request_buffer_max ≡ p.http_request_buffer_max
  pub shrinks : length q.http_request_buffer ≤ length p.http_request_buffer

pub Progress-refl : (p : Parser) → Progress p p
Progress-refl p = record {
  added = [];
  appended = sym (append-nil p.requests);
  served = tt;
  same_max = refl;
  shrinks = omega arith;
}

pub Progress-trans : (p q r : Parser) → Progress p q → Progress q r → Progress p r
Progress-trans p q r a b = record {
  added = a.added ++ b.added;
  appended = b.appended ∙ rw a.appended (append_assoc p.requests a.added b.added);
  served = All-append IsServed a.added b.added a.served b.served;
  same_max = b.same_max ∙ a.same_max;
  shrinks = omega (arith, a.shrinks, b.shrinks);
}

-- A state whose requests, maximum and buffer are those of `p`.
pub Progress-same :
    (p q : Parser)
    → q.requests ≡ p.requests
    → q.http_request_buffer_max ≡ p.http_request_buffer_max
    → q.http_request_buffer ≡ p.http_request_buffer
    → Progress p q
Progress-same p q r m b = record {
  added = [];
  appended = r ∙ sym (append-nil p.requests);
  served = tt;
  same_max = m;
  shrinks = omega (arith, ap length b);
}

pub Progress-one :
    (p q : Parser) (r : Request)
    → q.requests ≡ p.requests ++ r ∷ []
    → IsServed r
    → q.http_request_buffer_max ≡ p.http_request_buffer_max
    → length q.http_request_buffer ≤ length p.http_request_buffer
    → Progress p q
Progress-one p q r e s m b = record {
  added = r ∷ [];
  appended = e;
  served = (s, tt);
  same_max = m;
  shrinks = b;
}

-- The state in which a payload is looked for.
record Awaits (p : Parser) : Type 0 where
  version : p.request_properties.http_version ≡ 1
  method : p.request_properties.http_method ≡ 2
  small : p.post_content_length ≤ 2048

length-take_le : (n : ℕ) (s : Bytes) → length (take n s) ≤ n
length-take_le n s = omega (arith, length-take n s)

take_payload-Progress : (p : Parser) → Awaits p → Ensures (Progress p) (take_payload p)
unfolding take_payload
take_payload-Progress p a =
    elim (Bool-cases (leb p.post_content_length (length p.http_request_buffer))) [
      | inl t ↦ rw t (
          Progress-one p _ _ refl
            (
              a.version,
              inr (
                a.method,
                omega (arith, a.small, length-take_le p.post_content_length p.http_request_buffer),
              ),
            )
            refl (omega (arith, length-drop p.post_content_length p.http_request_buffer)))
      | inr t ↦ rw t (Progress-same p _ refl refl refl)
    ]

take_next_payload-Progress :
    (p : Parser) (index : ℕ) → Awaits p → Ensures (Progress p) (take_next_payload p index)
unfolding take_next_payload
take_next_payload-Progress p index a =
    elim (Option-cases (get_elem? p.splitted_requests (suc index))) [
      | inl n ↦ rw (n, take_next_payload) (Progress-refl p)
      | inr (next, e) ↦
          rw (e, take_next_payload)
            (elim (Bool-cases (leb p.post_content_length (length next))) [
              | inl t ↦ rw t (
                  Progress-one p _ _ refl
                    (
                      a.version,
                      inr (
                        a.method,
                        omega (arith, a.small, length-take_le p.post_content_length next),
                      ),
                    )
                    refl (omega arith))
              | inr t ↦ rw t (Progress-refl p)
            ])
    ]

pub Progress-after {ℓ} :
    {A : Type ℓ} (p q : Parser) (o : Outcome A)
    → Progress p q
    → Ensures (Progress q) o
    → Ensures (Progress p) o
Progress-after p q (returned a r) x y = Progress-trans p q r x y
Progress-after p q (thrown e r) x y = Progress-trans p q r x y

process_length-Progress :
    (p : Parser) (index n : ℕ)
    → p.request_properties.http_version ≡ 1
    → p.request_properties.http_method ≡ 2
    → Ensures (Progress p) (process_length p index n)
unfolding process_length
process_length-Progress p index n v m =
    let q = record p { post_content_length = n % 2 ^ 16 } in
    let to_q : Progress p q = Progress-same p q refl refl refl in
    elim (Bool-cases (ltb 2048 (n % 2 ^ 16))) [
      | inl t ↦ rw t to_q
      | inr t ↦
          let a : Awaits q = record { version = v; method = m; small = ltb-false _ _ t } in
          rw t (elim (Bool-cases (length p.splitted_requests == 1)) [
            | inl one ↦
                rw one (Progress-after p q (take_payload q) to_q (take_payload-Progress q a))
            | inr more ↦ rw more (elim (Bool-cases (ltb index (length p.splitted_requests))) [
              | inl i ↦ rw i (
                  Progress-after p q (take_next_payload q index) to_q
                    (take_next_payload-Progress q index a))
              | inr i ↦ rw i to_q
            ])
          ])
    ]

pub process_post-Progress :
    (p : Parser) (index : ℕ)
    → p.request_properties.http_version ≡ 1
    → p.request_properties.http_method ≡ 2
    → Ensures (Progress p) (process_post p index)
unfolding process_post
process_post-Progress p index v m =
    elim (Option-cases (lookup http_header_content_length p.request_properties.request_headers)) [
      | inl e ↦ rw (e, process_post) (Progress-refl p)
      | inr (value, e) ↦
          rw (e, process_post)
            (elim (Bool-cases (is_digits value)) [
              | inr bad ↦ rw bad (Progress-refl p)
              | inl good ↦ rw good (by_number (stoi value))
            ])
    ]
  where
    by_number :
        (r : Parsed)
        → Ensures
            (Progress p)
            (elim r [ failed x ↦ thrown x p | number n ↦ process_length p index n ])
    by_number (failed x) = Progress-refl p
    by_number (number n) = process_length-Progress p index n v m
