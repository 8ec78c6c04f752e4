-- ===== src/Tests/Home.antt =====
-- The theorems on the home screen at concrete inputs.
use tx_ide_rs.Prelude.{
  ◌≡◌, refl, [], ◌∷◌, none, some, Text, false, codes, text_eq, starts_with, contains,
}
use tx_ide_rs.Agent.{idle}
use tx_ide_rs.Home.{AgentRow, Context, ready, attach, stop, run, Home}
use tx_ide_rs.Home.Rows.{rows_of}
use tx_ide_rs.Home.Keys.{char, down, key, new_home, trim_end}
use tx_ide_rs.Home.Cursor.{opened, pressed, Rests, Reachable-Rests}
use tx_ide_rs.Home.Stopping.{RunningAt, key-key_stops}
use tx_ide_rs.Home.Choice.{encode, decode}
use tx_ide_rs.Home.Codec.{IsPlain, decode-encode}

abbrev as_it_is : Text → Text
as_it_is text = text

abbrev auth : AgentRow
auth = record {
  id = codes "i1";
  name = codes "auth";
  tag = [];
  state = idle;
  age_at = 3;
  branch = none;
  chats = 0;
  project = 0;
  is_assistant = false;
}

abbrev sample_context : Context
sample_context = record {
  projects = record { name = codes "tx"; path = codes "/tx" } ∷ [];
  agents = auth ∷ [];
  views = [];
  details = [];
  assistant = ready;
  plugins = [];
  keys = [];
  now = 5;
  home_directory = codes "/h";
}

abbrev sample_home : Home
sample_home = new_home as_it_is sample_context

Reachable-Rests_example : Rests as_it_is (key as_it_is down sample_home).1
Reachable-Rests_example =
    Reachable-Rests as_it_is
      (pressed down (key as_it_is down sample_home).1 (opened sample_context sample_home refl) refl)

asks_nothing : sample_home.confirm ≡ none
unfolding new_home
asks_nothing = refl

stops :
    (key as_it_is (char b'y') (key as_it_is (char b'x') sample_home).1).0 ≡ run (stop (codes "i1"))
unfolding key new_home text_eq rows_of starts_with contains
stops = refl

key-key_stops_example :
    (char b'x' ≡ char b'x') × (char b'y' ≡ char b'y') × RunningAt as_it_is sample_home (codes "i1")
key-key_stops_example =
    key-key_stops as_it_is (char b'x') (char b'y') sample_home (codes "i1") asks_nothing stops

plain : IsPlain (attach (codes "auth"))
unfolding IsPlain trim_end
plain = record { first = b'a'; rest = codes "uth"; parts = refl; starts = refl; ends = refl }

decode-encode_example : decode (encode (attach (codes "auth"))) ≡ some (attach (codes "auth"))
decode-encode_example = decode-encode (attach (codes "auth")) plain
