-- ===== src/Tests/Parts.antt =====
-- The theorems on the components at concrete inputs.
use tx_ide_rs.Prelude.{
  false, leb, ◌++◌, ℕ, zero, suc, ◌+◌, ◌/◌, ◌≤◌, ◌<◌, ◌≡◌, refl, ◌↔◌, List, [], ◌∷◌, some, Text,
  codes, text_eq, All, contains, arith, length, ◌-◌, inl, inr,
}
use tx_ide_rs.Agent.Names.{SafeByte}
use tx_ide_rs.Result.{ok}
use tx_ide_rs.Store.{Dir, holds, load, all, scan, read, insert_record, older, text_lt}
use tx_ide_rs.Agent.{Agent, idle}
use tx_ide_rs.Store.Scan.{Member, all_iff}
use tx_ide_rs.Store.Order.{IsOrdered, all-IsOrdered}
use tx_ide_rs.Messaging.Envelope.{agent_envelope-injective}
use tx_ide_rs.Engine.Paths.{root_dir, normal, normalize, components, is_absolute, resolve_in}
use tx_ide_rs.Engine.Paths.Containment.{Inside, resolve_in-Inside}
use tx_ide_rs.Events.{encode, pipe_buf}
use tx_ide_rs.Events.Escapes.{json_escape, json_text}
use tx_ide_rs.Events.Trim.{Encodes, Keeps, encode-le-pipe_buf, encode-Keeps}
use tx_ide_rs.Core.Env.{candidate, free_name, is_path_name}
use tx_ide_rs.Core.Env.Names.{FirstFrom, free_name-FirstFrom}
use tx_ide_rs.Core.World.{ask, ◌>>=◌}
use tx_ide_rs.Core.Archive.{exit_poll, poll, wait_for_exit}
use tx_ide_rs.Core.Archive.Waiting.{IsClock, wait_for_exit-enough}
use tx_ide_rs.Tests.Sample.{
  main_id, old_id, sample_agent, sample_dir-Distinct, sample_core, sample_world, main_agent,
  old_agent, sample_dir,
}

-- The listing has the older agent first.
listed : all sample_dir ≡ ok (old_agent ∷ main_agent ∷ [])
unfolding all scan read insert_record older text_eq
listed = refl

all_iff_example :
    Member main_agent (old_agent ∷ main_agent ∷ [])
    ↔ (load main_agent.id sample_dir ≡ ok (some main_agent))
all_iff_example =
    all_iff sample_dir (old_agent ∷ main_agent ∷ []) main_agent sample_dir-Distinct listed

-- Two agents that were created at the same time, and an older one; the file with the later id stands
-- first in the directory.
abbrev twin : Agent
twin = sample_agent (codes "a0") (codes "twin") idle 2

abbrev twins : Dir
twins = (main_id, holds main_agent) ∷ (codes "a0", holds twin) ∷ (old_id, holds old_agent) ∷ []

twins_listed : all twins ≡ ok (old_agent ∷ twin ∷ main_agent ∷ [])
unfolding all scan read insert_record older text_eq text_lt
twins_listed = refl

all-IsOrdered_example : IsOrdered (old_agent ∷ twin ∷ main_agent ∷ [])
all-IsOrdered_example = all-IsOrdered twins (old_agent ∷ twin ∷ main_agent ∷ []) twins_listed

safe_ab : All SafeByte (codes "ab")
safe_ab =
    (inr (inr (inl (omega arith, omega arith))), (inr (inr (inl (omega arith, omega arith))), tt))

agent_envelope-injective_example : (codes "ab" ≡ codes "ab") × (codes "\">x" ≡ codes "\">x")
agent_envelope-injective_example =
    agent_envelope-injective (codes "ab") (codes "ab") (codes "\">x") (codes "\">x") safe_ab safe_ab
      refl

-- A dot-dot inside the directory is let through.
resolved :
    resolve_in (codes "/w") (codes "a/../b")
    ≡ ok (root_dir ∷ normal (codes "w") ∷ normal (codes "b") ∷ [])
unfolding resolve_in components normalize is_absolute text_eq
resolved = refl

resolve_in-Inside_example :
    Inside (codes "/w") (root_dir ∷ normal (codes "w") ∷ normal (codes "b") ∷ [])
resolve_in-Inside_example =
    resolve_in-Inside (codes "/w") (codes "a/../b")
      (root_dir ∷ normal (codes "w") ∷ normal (codes "b") ∷ []) resolved

-- The line of an encoder, with a message alone in it.
sample_line : List ℕ → Text
sample_line msg = codes "{\"msg\":\"" ++ (json_text msg ++ codes "\"}\n")

sample_line-Encodes : Encodes sample_line
unfolding sample_line
sample_line-Encodes = (codes "{\"msg\":\"", codes "\"}\n", λ msg. refl)

sample_line-room : length (sample_line []) ≤ pipe_buf
unfolding sample_line json_text
sample_line-room = omega arith

-- Line feeds, of which each takes two bytes, so that half of them do not fit.
feeds : ℕ → List ℕ
feeds zero = []
feeds (suc n) = b'\n' ∷ feeds n

long_message : List ℕ
long_message = feeds 512

long_message-too_long : leb (length (sample_line long_message)) pipe_buf ≡ false
unfolding sample_line long_message feeds json_text json_escape
long_message-too_long = refl

encode-le-pipe_buf_example : length (encode sample_line long_message) ≤ pipe_buf
encode-le-pipe_buf_example =
    encode-le-pipe_buf sample_line long_message sample_line-Encodes sample_line-room

encode-Keeps_example :
    (kept : List ℕ) × (encode sample_line long_message ≡ sample_line kept)
    × Keeps (pipe_buf - length (sample_line [])) long_message kept
encode-Keeps_example = encode-Keeps sample_line long_message sample_line-Encodes sample_line-room

-- The wanted name is taken.
second : free_name (codes "a") (codes "a" ∷ []) ≡ some (codes "a-2")
unfolding free_name candidate is_path_name contains text_eq
second = refl

free_name-FirstFrom_example :
    (k : ℕ) × (codes "a-2" ≡ candidate (codes "a") k)
    × (k < 100)
    × FirstFrom (codes "a") (codes "a" ∷ []) 1 k
free_name-FirstFrom_example = free_name-FirstFrom (codes "a") (codes "a" ∷ []) (codes "a-2") second

sample_core-IsClock : IsClock sample_core (λ t. t)
sample_core-IsClock = record {
  reads = λ t. refl;
  reading = λ t. omega arith;
  looking = λ pid t. omega arith;
  sleeping = λ ms t. omega arith;
}

wait_for_exit-enough_example :
    (ask sample_core.outside.now >>= λ start.
    poll sample_core (120 / exit_poll + 2 + 5) 7 (start + 120))
      sample_world
    ≡ wait_for_exit sample_core 7 120 sample_world
wait_for_exit-enough_example =
    wait_for_exit-enough sample_core (λ t. t) sample_core-IsClock 5 7 120 sample_world
