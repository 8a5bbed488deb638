-- ===== src/Control/History.antt =====
-- src/bin/control_server.rs: the stages over a history of requests, handled one after the other.
use rust_hotpath_ipc.Prelude.{
  ℕ, ◌≡◌, refl, Bool, true, not, inl, inr, Bool-cases, Option, List, [], ◌∷◌, arith, ◌==◌, ◌≤◌,
  length,
}
use rust_hotpath_ipc.Prelude.Text.{Text, codes, text_eq}
use rust_hotpath_ipc.Float.{F64}
use rust_hotpath_ipc.Control.Params.{from_params_json}
use rust_hotpath_ipc.Control.Hub.{Process, Server, subscribe, keep, stop_pipeline}
use rust_hotpath_ipc.Control.Launch.{
  AllSpawn, Host, run_pipeline, Method, Request, path_of, get_route, post_route, handle_route,
  handle,
}
use rust_hotpath_ipc.Control.Tracked.{
  IsTracked, children_of, all_children, run_pipeline-IsTracked, stop_pipeline-IsTracked,
}

-- A request, or a stage that ends by itself.
pub data Event : Type 0 where
  request : Request → Event
  exit : ℕ → Event

module _ (F : F64) (parse_f64 : Text → Option F.Float) (h : Host F.Float) where
  unfoldable pub serve : Event → Server → Server
  unfolding handle keep
  serve (request r) s = (handle F parse_f64 h r s).0
  serve (exit pid) s = record s { alive = keep (λ p. not (p.pid == pid)) s.alive }

  unfoldable pub serve_all : List Event → Server → Server
  unfolding serve
  serve_all [] s = s
  serve_all (e ∷ es) s = serve_all es (serve e s)

-- The spawns of each request end well.
unfoldable pub NoneFails : List Event → Type 0
NoneFails [] = Unit {0}
NoneFails (request r ∷ es) = AllSpawn r.spawns × NoneFails es
NoneFails (exit pid ∷ es) = NoneFails es

-- Each live stage belongs to the pipeline that runs, and there are at most three.
pub record IsSteady (s : Server) : Type 0 where
  pub tracked : IsTracked s
  pub few : length s.alive ≤ 3

all_children-keep :
    (test : Process → Bool) (children : List ℕ) (ps : List Process)
    → all_children children ps ≡ true
    → all_children children (keep test ps) ≡ true
unfolding all_children keep
all_children-keep test children [] h = refl
all_children-keep test children (p ∷ ps) h = ground (arith, all_children-keep test children ps)

length-keep : (test : Process → Bool) (ps : List Process) → length (keep test ps) ≤ length ps
unfolding keep
length-keep test [] = omega arith
length-keep test (p ∷ ps) = ground (arith, length-keep test ps)

module _ (F : F64) (parse_f64 : Text → Option F.Float) (h : Host F.Float) where
  run-IsSteady :
      (r : Request) (s : Server)
      → AllSpawn r.spawns
      → IsSteady s
      → IsSteady (run_pipeline h (from_params_json F parse_f64 r.body) r.spawns s).0
  unfolding all_children
  run-IsSteady r s w t =
      let p = from_params_json F parse_f64 r.body in
      let (ok, runs, alive) = run_pipeline-IsTracked h p r.spawns s w t.tracked in
      record { tracked = rw (runs, alive) (ground arith); few = rw alive (omega arith) }

  stop-IsSteady : (s : Server) → IsSteady s → IsSteady (stop_pipeline h.survives s)
  unfolding all_children
  stop-IsSteady s t =
      let (alive, runs) = stop_pipeline-IsTracked h.survives s t.tracked in
      record { tracked = rw alive; few = rw alive (omega arith) }

  get_route-IsSteady :
      (path : Text) (r : Request) (s : Server)
      → IsSteady s
      → IsSteady (get_route F parse_f64 h path r s).0
  unfolding get_route subscribe
  get_route-IsSteady path r s t =
      let tracked = t.tracked in
      let few = t.few in record { tracked = ground arith; few = ground arith }

  post_route-IsSteady :
      (path : Text) (r : Request) (s : Server)
      → AllSpawn r.spawns
      → IsSteady s
      → IsSteady (post_route F parse_f64 h path r s).0
  unfolding post_route
  post_route-IsSteady path r s w t = elim (Bool-cases (text_eq path (codes "/run"))) [
    | inl run ↦ rw run (run-IsSteady r s w t)
    | inr more ↦ rw more (elim (Bool-cases (text_eq path (codes "/stop"))) [
      | inl stop ↦ rw stop (stop-IsSteady s t)
      | inr neither ↦ rw neither t
    ])
  ]

  handle_route-IsSteady :
      (m : Method) (path : Text) (r : Request) (s : Server)
      → AllSpawn r.spawns
      → IsSteady s
      → IsSteady (handle_route F parse_f64 h m path r s).0
  unfolding handle_route
  handle_route-IsSteady Method.get path r s w t = get_route-IsSteady path r s t
  handle_route-IsSteady Method.post path r s w t = post_route-IsSteady path r s w t
  handle_route-IsSteady Method.other path r s w t = t

  -- Over any history of requests of any kind, handled one after the other, whose spawns end well,
  -- and of stages that end by themselves, each live stage belongs to the pipeline that runs, and
  -- there are at most three: there is one pipeline at a time.
  pub serve_all-IsSteady :
      (es : List Event) (s : Server)
      → NoneFails es
      → IsSteady s
      → IsSteady (serve_all F parse_f64 h es s)
  unfolding serve_all serve NoneFails handle
  serve_all-IsSteady [] s w t = t
  serve_all-IsSteady (request r ∷ es) s w t =
      serve_all-IsSteady es (handle_route F parse_f64 h r.method (path_of r.url) r s).0 w.1
        (handle_route-IsSteady r.method (path_of r.url) r s w.0 t)
  serve_all-IsSteady (exit pid ∷ es) s w t =
      serve_all-IsSteady es (record s { alive = keep (λ p. not (p.pid == pid)) s.alive }) w
        (record {
          tracked = all_children-keep _ (children_of s.running) s.alive t.tracked;
          few = omega (arith, length-keep (λ p. not (p.pid == pid)) s.alive, t.few);
        })
