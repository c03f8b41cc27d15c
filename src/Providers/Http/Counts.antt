-- ===== src/Providers/Http/Counts.antt =====
-- How many requests an exchange of crates/roos-providers/src sends.
use roos.Base.{ℕ, suc, ◌≡◌, ap, sym, ◌∙◌, Text, Result}
use roos.Core.Provider.{CompletionResponse, ProviderError}
use roos.Providers.Http.{Auth, Http, extract_error, exchange}
use roos.Providers.Http.Statuses.{
  Ending, unreachable, answered, Answered, completed, unreadable, refused, limited, failed,
  rejected, exchange-Ending,
}

-- `sent` counts the requests: `post` sends one, also where it fails, and reading a body sends none.
pub record Counts {W H R A : Type 0} (http : Http W H R A) (sent : W → ℕ) : Type 0 where
  pub posts :
      (auth : Auth) (url : Text) (body : R) (w : W)
      → sent (http.post auth url body w).1 ≡ suc (sent w)
  pub reads : (resp : H) (w : W) → sent (http.json resp w).1 ≡ sent w
  pub reads_error : (resp : H) (w : W) → sent (http.error_message resp w).1 ≡ sent w

module _ {W H R A J : Type 0} (http : Http W H R A) (map_response : A → CompletionResponse J)
    (sent : W → ℕ) (counts : Counts http sent) where
  extract_error-sent : (resp : H) (w : W) → sent (extract_error http resp w).1 ≡ sent w
  unfolding extract_error
  extract_error-sent resp w = counts.reads_error resp w

  Answered-sent :
      {resp : H} {status : ℕ} {v w' : W} {r : Result ProviderError (CompletionResponse J)}
      → Answered http map_response resp status v r w'
      → sent w' ≡ sent v
  Answered-sent {resp} {status} {v} (completed api a b h e) =
      sym (ap (λ x. sent x.1) h) ∙ counts.reads resp v
  Answered-sent {resp} {status} {v} (unreadable e a b h f) =
      sym (ap (λ x. sent x.1) h) ∙ counts.reads resp v
  Answered-sent {resp} {status} {v} (refused a e h) = ap sent h ∙ extract_error-sent resp v
  Answered-sent (limited a e h) = ap sent h
  Answered-sent {resp} {status} {v} (failed a b e h) = ap sent h ∙ extract_error-sent resp v
  Answered-sent {resp} {status} {v} (rejected a b c e h) = ap sent h ∙ extract_error-sent resp v

  Ending-sent :
      {auth : Auth} {url : Text} {body : R} {w w' : W}
      {r : Result ProviderError (CompletionResponse J)}
      → Ending http map_response auth url body w r w'
      → sent w' ≡ suc (sent w)
  Ending-sent {auth} {url} {body} {w} (unreachable e h f) =
      sym (ap (λ x. sent x.1) h) ∙ counts.posts auth url body w
  Ending-sent {auth} {url} {body} {w} (answered resp v h a) =
      Answered-sent a ∙ (sym (ap (λ x. sent x.1) h) ∙ counts.posts auth url body w)

  -- Every exchange sends one request, however it ends.
  pub sent-exchange :
      (auth : Auth) (url : Text) (body : R) (w : W)
      → sent (exchange http map_response auth url body w).1 ≡ suc (sent w)
  sent-exchange auth url body w = Ending-sent (exchange-Ending http map_response auth url body w)
