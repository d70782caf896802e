-- ===== src/Nodes/HttpRequest/Retries.antt =====
-- The retries of the HTTP request node (pkg/nodes/httprequest/node.go, `Execute`), against the list
-- of the results that the attempts would have.
use operion.Base.{
  ℕ, zero, suc, ◌+◌, ◌≤◌, String, Bool, true, false, leb, ◌≡◌, refl, ap, ◌∙◌, inl, inr, arith,
  Bool-cases, List, [], ◌∷◌, length, Dict, Option, none, some, if◌then◌else◌,
}
use operion.Models.Value.{Value}
use operion.Models.Execution.{ExecutionContext}
use operion.Models.Event.{Error, http_error}
use operion.Store.{Result, ok, err}
use operion.Template.{Engine}
use operion.Models.Number.{ℤ, pos, negsuc}
use operion.Nodes.HttpRequest.{
  HttpRequestNode, Client, perform_request, response, request_of, read_exchange,
}
use operion.Nodes.HttpRequest.Execution.{
  Attempts, retry, after_attempt, is_http_error, rounds, attempts_of, render_headers,
}

-- The results of `left` attempts, none of them left out, after `sent` requests.
pub results : (ℕ → Result (Dict Value)) → ℕ → ℕ → List (Result (Dict Value))
results perform zero sent = []
results perform (suc left) sent = perform (suc sent) ∷ results perform left (suc sent)

abbrev cut : Bool → List (Result (Dict Value)) → List (Result (Dict Value))
cut true rs = []
cut false rs = rs

-- Those up to the first success or HTTP error, which is among them.
pub up_to_final : List (Result (Dict Value)) → List (Result (Dict Value))
up_to_final [] = []
up_to_final (ok m ∷ rs) = ok m ∷ []
up_to_final (err e ∷ rs) = err e ∷ cut (is_http_error e) (up_to_final rs)

pub answer_in : List (Result (Dict Value)) → Option (Dict Value)
answer_in [] = none
answer_in (ok m ∷ rs) = some m
answer_in (err e ∷ rs) = answer_in rs

pub error_after : Option Error → List (Result (Dict Value)) → Option Error
error_after last [] = last
error_after last (ok m ∷ rs) = none
error_after last (err e ∷ rs) = error_after (some e) rs

pub tried : ℕ → Option Error → List (Result (Dict Value)) → Attempts
tried sent last rs = record {
  answer = answer_in rs;
  last_error = error_after last rs;
  requests = sent + length rs;
}

tried-add :
    (s : ℕ) (last : Option Error) (e : Error) (rs : List (Result (Dict Value)))
    → tried (suc s) (some e) rs ≡ tried s last (err e ∷ rs)
unfolding tried error_after answer_in
tried-add s last e rs =
    ap (λ n. record { answer = answer_in rs; last_error = error_after (some e) rs; requests = n })
      (omega arith)

-- The retry loop gives what the list of the results up to the first success or HTTP error gives,
-- and sends one request for each of them.
pub retry-up_to_final :
    (perform : ℕ → Result (Dict Value)) (left sent : ℕ) (last : Option Error)
    → retry perform left sent last ≡ tried sent last (up_to_final (results perform left sent))
unfolding retry results up_to_final tried answer_in error_after
retry-up_to_final perform zero sent last =
    ap (λ n. record { answer = none; last_error = last; requests = n }) (omega arith)
retry-up_to_final perform (suc left) sent last =
    round (retry-up_to_final perform left (suc sent)) (perform (suc sent))
  where
    Rest : Type 0
    Rest =
        (last : Option Error)
        → retry perform left (suc sent) last
          ≡ tried (suc sent) last (up_to_final (results perform left (suc sent)))

    ended :
        Rest
        → (e : Error) (b : Bool)
        → (if b
            then record { answer = none; last_error = some e; requests = suc sent }
            else retry perform left (suc sent) (some e))
          ≡ tried sent last (err e ∷ cut b (up_to_final (results perform left (suc sent))))
    ended rest e true =
        ap (λ n. record { answer = none; last_error = some e; requests = n }) (omega arith)
    ended rest e false =
        rest (some e) ∙ tried-add sent last e (up_to_final (results perform left (suc sent)))

    round :
        Rest
        → (r : Result (Dict Value))
        → after_attempt (suc sent) r (λ e. retry perform left (suc sent) (some e))
          ≡ tried sent last (up_to_final (r ∷ results perform left (suc sent)))
    round rest (ok m) =
        ap (λ n. record { answer = some m; last_error = none; requests = n }) (omega arith)
    round rest (err e) = ended rest e (is_http_error e)

length-cut : (b : Bool) (rs : List (Result (Dict Value))) → length (cut b rs) ≤ length rs
length-cut true rs = omega arith
length-cut false rs = omega arith

length-up_to_final :
    (perform : ℕ → Result (Dict Value)) (left sent : ℕ)
    → length (up_to_final (results perform left sent)) ≤ left
unfolding up_to_final results
length-up_to_final perform zero sent = omega arith
length-up_to_final perform (suc left) sent =
    round (length-up_to_final perform left (suc sent)) (perform (suc sent))
  where
    round :
        length (up_to_final (results perform left (suc sent))) ≤ left
        → (r : Result (Dict Value))
        → length (up_to_final (r ∷ results perform left (suc sent))) ≤ suc left
    round l (ok m) = omega arith
    round l (err e) =
        omega
          (arith, l, length-cut (is_http_error e) (up_to_final (results perform left (suc sent))))

tried-bound :
    (rs : List (Result (Dict Value))) (k : ℕ) → length rs ≤ k → (tried 0 none rs).requests ≤ k
unfolding tried
tried-bound rs k l = omega (arith, l)

pub attempts_of-rounds :
    (g : Engine) (h : Client) (n : HttpRequestNode) (c : ExecutionContext) (url body : String)
    → (attempts_of g h n c url body).requests ≤ rounds n.config.retries.attempts
unfolding attempts_of tried
attempts_of-rounds g h n c url body =
    rw (retry-up_to_final perform (rounds n.config.retries.attempts) 0 none)
      (tried-bound _ _ (length-up_to_final perform (rounds n.config.retries.attempts) 0))
  where
    perform : ℕ → Result (Dict Value)
    perform = perform_request g h n url body (render_headers g c n.config.headers)

-- No more than an integer, and none if it is negative.
abbrev pub AtMost : ℤ → ℕ → Type 0
AtMost (pos n) k = k ≤ n
AtMost (negsuc n) k = k ≡ 0

rounds-AtMost : (attempts : ℤ) (k : ℕ) → k ≤ rounds attempts → AtMost attempts k
unfolding rounds
rounds-AtMost (pos n) k l = l
rounds-AtMost (negsuc n) k l = omega (arith, l)

-- An execution of the node sends at most as many requests as its configuration has attempts, and
-- none if that number is not positive.
pub attempts_of-bounds :
    (g : Engine) (h : Client) (n : HttpRequestNode) (c : ExecutionContext) (url body : String)
    → AtMost n.config.retries.attempts (attempts_of g h n c url body).requests
attempts_of-bounds g h n c url body =
    rounds-AtMost n.config.retries.attempts _ (attempts_of-rounds g h n c url body)

-- If the first answer has a status of at least 400, be it a client's or a server's error, the node
-- sends no second request, however many attempts its configuration has.
pub attempts_of-on_status :
    (g : Engine) (h : Client) (n : HttpRequestNode) (c : ExecutionContext) (url body text : String)
    (status more : ℕ)
    → 400 ≤ status
    → rounds n.config.retries.attempts ≡ suc more
    → h.exchange 1 (request_of h n url body (render_headers g c n.config.headers))
      ≡ response status text
    → attempts_of g h n c url body
      ≡ record { answer = none; last_error = some (http_error status text); requests = 1 }
unfolding attempts_of retry perform_request read_exchange is_http_error
attempts_of-on_status g h n c url body text status more l r e =
    rw (r, e)
      (elim (Bool-cases (leb 400 status)) [
        | inl q ↦ rw q refl
        | inr q ↦ absurd (ground (arith, l, q))
      ])
