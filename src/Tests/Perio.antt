-- ===== src/Tests/Perio.antt =====
-- The server of periodic reports on concrete input.
use go_upf.Base.{none, [], ◌∷◌, refl, List}
use go_upf.Perio.{
  PerioServer, PerioEvent, perio_add, perio_del, perio_timeout, serve_all, serve, add_urr, del_urr,
  timeout,
}
use go_upf.Perio.Tidy.{IsTidy, serve_all-IsTidy}

abbrev idle : PerioServer
idle = record { perio_list = []; tickers = 0; notified = [] }

-- Two URRs of one session with one period, of which the first is deleted.
abbrev some_events : List PerioEvent
some_events = perio_add 5 1 1000 ∷ perio_add 5 2 1000 ∷ perio_timeout 1000 ∷ perio_del 5 1 ∷ []

abbrev one_left : PerioServer
one_left = record { perio_list = (1000, (5, 2 ∷ []) ∷ []) ∷ []; tickers = 1; notified = [] }

serve_all-IsTidy_example : IsTidy one_left
unfolding serve_all serve add_urr del_urr timeout
serve_all-IsTidy_example = serve_all-IsTidy (λ g. none) some_events idle one_left (tt, refl) refl
