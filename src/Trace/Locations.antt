-- ===== src/Trace/Locations.antt =====
-- arm_simulator-1.4/trace.c: the stack of locations, and what a disabled trace does.
use arm_processor_simulator.Base.{
  ℕ, ◌+◌, ◌-◌, ◌^◌, ◌<◌, Bool, true, false, List, ◌≡◌, refl, ◌∙◌, ap, done, fault, ltb, update,
  arith, lt→ltb, if_true,
}
use arm_processor_simulator.Util.{u32, sub32}
use arm_processor_simulator.Trace.{
  Trace, trace_start_location, trace_end_location, trace_memory, trace_register, trace_enable,
  trace_disable, trace_add,
}

next_top : (top depth : ℕ) → top ≡ u32 (depth + (2 ^ 32 - 1)) → depth < 128 → u32 (top + 1) ≡ depth
next_top top depth at lt = omega arith

abbrev pushed : List ℕ → ℕ → ℕ → Trace → Trace
pushed file line top t = record t {
  location_stack_top = top;
  location_file_stack = update t.location_file_stack top file;
  location_line_stack = update t.location_line_stack top line;
}

start-pushed :
    (file : List ℕ) (line depth : ℕ) (t : Trace)
    → t.enabled ≡ true
    → u32 (t.location_stack_top + 1) ≡ depth
    → ltb depth 128 ≡ true
    → trace_start_location file line t ≡ done (pushed file line depth t)
unfolding trace_start_location
start-pushed file line depth t on at lt = cc

trace_end_location-top :
    (t : Trace)
    → t.enabled ≡ true
    → (trace_end_location t).location_stack_top ≡ sub32 t.location_stack_top 1
unfolding trace_end_location
trace_end_location-top t on =
    ap (λ x. x.location_stack_top)
      (if_true t.enabled (record t { location_stack_top = sub32 t.location_stack_top 1 }) t on)

-- A location that is entered and left, where fewer than 128 are: the stack is as before, and within it
-- the location is the one that is printed.
pub trace_end_location-trace_start_location :
    (file : List ℕ) (line depth : ℕ) (t : Trace)
    → t.enabled ≡ true
    → t.location_stack_top ≡ u32 (depth + (2 ^ 32 - 1))
    → depth < 128
    → (t' : Trace) × (trace_start_location file line t ≡ done t')
      × (t'.location_file_stack t'.location_stack_top ≡ file)
      × (t'.location_line_stack t'.location_stack_top ≡ line)
      × (t'.location_stack_top ≡ u32 (depth + 1 + (2 ^ 32 - 1)))
      × ((trace_end_location t').location_stack_top ≡ t.location_stack_top)
      × ((i : ℕ) → i < depth → t'.location_file_stack i ≡ t.location_file_stack i)
unfolding trace_start_location trace_end_location
trace_end_location-trace_start_location file line depth t on at lt = (
  pushed file line depth t,
  start-pushed file line depth t on (next_top t.location_stack_top depth at lt)
      (lt→ltb depth 128 lt),
  ground arith,
  ground arith,
  omega arith,
  trace_end_location-top (pushed file line depth t) on ∙ omega (arith, at),
  λ i lt'. ground arith,
)

-- The location that is entered when 128 are: the source writes behind the end of the stack.
pub trace_start_location-full :
    (file : List ℕ) (line : ℕ) (t : Trace)
    → t.enabled ≡ true
    → t.location_stack_top ≡ 127
    → trace_start_location file line t ≡ fault
unfolding trace_start_location
trace_start_location-full file line t on at =
    let next : u32 (t.location_stack_top + 1) ≡ 128 = omega arith in cc

-- What a trace that is disabled does: every call leaves it as it was and prints nothing, until it is
-- enabled again.
pub trace_disabled :
    (t : Trace) (format : Bool) (file : List ℕ)
    (line cycle type size cause address value reg mode flags : ℕ)
    → t.enabled ≡ false
    → (trace_start_location file line t ≡ done t)
      × (trace_end_location t ≡ t)
      × (trace_memory format cycle type size cause address value t ≡ done t)
      × (trace_register format cycle type reg mode value t ≡ done t)
      × ((trace_disable t).output ≡ t.output)
      × ((trace_add flags t).output ≡ t.output)
      × ((trace_enable t).enabled ≡ true)
unfolding trace_start_location trace_end_location trace_memory trace_register trace_enable
    trace_disable trace_add
trace_disabled t format file line cycle type size cause address value reg mode flags off =
    (cc, cc, cc, cc, refl, refl, refl)
