-- ===== src/Route/Middleware.antt =====
-- Handlers, middleware and `middleware_chain` of core/include/katana/core/router.hpp. A handler takes
-- the request and what it may change, the parameters of the context and the response, and returns
-- them with its result. A middleware also takes `next`, which it may call with another response.
use visage_dvachevsky_tempre.Base.{◌≡◌, refl, ◌∙◌, sym, ap, List, [], ◌∷◌, ◌++◌}
use visage_dvachevsky_tempre.Http.Method.{Result}
use visage_dvachevsky_tempre.Http.Message.{Request, Response}
use visage_dvachevsky_tempre.Route.Params.{PathParams}

-- `request_context&` and `response&`.
pub record Exchange : Type 0 where
  pub params : PathParams
  pub out : Response

abbrev pub Outcome : Type 0
Outcome = Result (Unit {0}) × Exchange

abbrev pub Handler : Type 0
Handler = Request → Exchange → Outcome

abbrev pub Next : Type 0
Next = Exchange → Outcome

abbrev pub MiddlewareFn : Type 0
MiddlewareFn = Request → Exchange → Next → Outcome

-- `invoker::call` from an index on, over the middleware that is left.
unfoldable pub call : List MiddlewareFn → Handler → Request → Exchange → Outcome
call [] terminal req x = terminal req x
call (mw ∷ mws) terminal req x = mw req x (λ y. call mws terminal req y)

unfoldable pub run : List MiddlewareFn → Handler → Request → Exchange → Outcome
run [] handler req x = handler req x
run (mw ∷ mws) handler req x = call (mw ∷ mws) handler req x

run-call :
    (mws : List MiddlewareFn) (handler : Handler) (req : Request) (x : Exchange)
    → run mws handler req x ≡ call mws handler req x
unfolding run call
run-call [] handler req x = refl
run-call (mw ∷ mws) handler req x = refl

run_is_call :
    (mws : List MiddlewareFn) (handler : Handler)
    → ◌≡◌ {A = Handler} (run mws handler) (call mws handler)
unfolding run call
run_is_call [] handler = refl
run_is_call (mw ∷ mws) handler = refl

call-append :
    (outer inner : List MiddlewareFn) (handler : Handler) (req : Request)
    → ◌≡◌ {A = Next} (call (outer ++ inner) handler req) (call outer (call inner handler) req)
unfolding call
call-append [] inner handler req = refl
call-append (mw ∷ mws) inner handler req =
    let around : Next → Next = λ next x. mw req x next in
    ap around (call-append mws inner handler req)

-- The middleware runs in its order: at any place of a chain, the middleware there is called by what
-- stands in front of it, and its `next` runs what stands behind it, the handler at the end; an empty
-- chain is the handler.
pub run-append :
    (outer inner : List MiddlewareFn) (mw : MiddlewareFn) (handler : Handler) (req : Request)
    (x : Exchange)
    → (run (outer ++ mw ∷ inner) handler req x
        ≡ run outer (λ r y. mw r y (λ z. run inner handler r z)) req x)
      × (run [] handler req x ≡ handler req x)
unfolding run call
run-append outer inner mw handler req x = (
  run-call (outer ++ mw ∷ inner) handler req x
      ∙ ap (λ (f : Next). f x) (call-append outer (mw ∷ inner) handler req)
      ∙ ap (λ (h : Handler). call outer (λ r y. mw r y (λ z. h r z)) req x)
          (sym (run_is_call inner handler))
      ∙ sym (run-call outer (λ r y. mw r y (λ z. run inner handler r z)) req x),
  refl,
)
