-- ===== src/Launcher/Metrics.antt =====
-- `record_http_metrics` of crates/stano-launcher/src/observability.rs. The up-down counter of active requests is
-- what was added and what was subtracted for each method. The code before `next.run(..).await` and the code
-- behind it are two operations: the future may be dropped between them, or unwind.
pub mod Active
mod Tests
use modular_rust_platform.Base.{
  ℕ, ◌+◌, String, Option, none, some, List, [], ◌∷◌, ◌++◌, str_eq, if◌then◌else◌, ◌≡◌,
}

-- A record in the histogram of durations.
pub record Duration : Type 0 where
  pub elapsed : ℕ
  pub method : String
  pub route : String
  pub status : ℕ

pub record Meter : Type 0 where
  pub added : String → ℕ
  pub subtracted : String → ℕ
  pub durations : List Duration

-- What the middleware keeps over the `await`.
pub record Pending : Type 0 where
  pub method : String
  pub route : String
  pub start : ℕ

abbrev pub bump : String → (String → ℕ) → String → ℕ
bump method counts k = if str_eq method k then counts k + 1 else counts k

abbrev route_or_unknown : Option String → String
route_or_unknown none = "unknown"
route_or_unknown (some path) = path

unfoldable pub before_next : String → Option String → ℕ → Meter → Pending × Meter
before_next method matched_path now meter = (
  record { method = method; route = route_or_unknown matched_path; start = now },
  record meter { added = bump method meter.added },
)

-- `elapsed` of the `Instant` and the status of the response.
unfoldable pub after_next : Pending → ℕ → ℕ → Meter → Meter
after_next pending elapsed status meter = record meter {
  subtracted = bump pending.method meter.subtracted;
  durations =
      record { elapsed = elapsed; method = pending.method; route = pending.route; status = status }
      ∷ meter.durations;
}

-- The requests that wait for their response, and those whose future was dropped or unwound there.
pub record State : Type 0 where
  pub meter : Meter
  pub in_flight : List Pending
  pub abandoned : List Pending

unfoldable pub arrive : String → Option String → ℕ → State → State
unfolding before_next
arrive method matched_path now s =
    let (pending, meter) = before_next method matched_path now s.meter in
    record s { meter = meter; in_flight = pending ∷ s.in_flight }

unfoldable pub respond : List Pending → Pending → List Pending → ℕ → ℕ → State → State
unfolding after_next
respond before pending later elapsed status s = record s {
  meter = after_next pending elapsed status s.meter;
  in_flight = before ++ later;
}

unfoldable pub abandon : List Pending → Pending → List Pending → State → State
abandon before pending later s = record s {
  in_flight = before ++ later;
  abandoned = pending ∷ s.abandoned;
}

-- The interleavings of any number of requests. A timeout drops the future of a request, since its layer
-- is outside the metrics; a panic of a handler unwinds it.
pub data Step : State → State → Type 0 where
  arrives :
      {s : State} (method : String) (matched_path : Option String) (now : ℕ)
      → Step s (arrive method matched_path now s)
  responds :
      {s : State} (before : List Pending) (pending : Pending) (later : List Pending)
      (elapsed status : ℕ)
      → s.in_flight ≡ before ++ pending ∷ later
      → Step s (respond before pending later elapsed status s)
  abandons :
      {s : State} (before : List Pending) (pending : Pending) (later : List Pending)
      → s.in_flight ≡ before ++ pending ∷ later
      → Step s (abandon before pending later s)

unfoldable pub initial : State
initial = record {
  meter = record { added = λ k. 0; subtracted = λ k. 0; durations = [] };
  in_flight = [];
  abandoned = [];
}

pub data Reachable : State → Type 0 where
  at_start : Reachable initial
  next : {s t : State} → Reachable s → Step s t → Reachable t
