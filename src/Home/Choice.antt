-- ===== src/Home/Choice.antt =====
-- The choice of the home screen (plugins/home/src/model.rs): the line that `Action::encode` writes
-- and `Action::decode` reads.
use tx_ide_rs.Prelude.{[], ◌∷◌, ◌++◌, Option, none, some, Text, codes, text_eq, if◌then◌else◌, ◌==◌}
use tx_ide_rs.Home.{Action, attach, resume, new, stop, ask, artifacts, timeline, tutor, warm}
use tx_ide_rs.Home.Keys.{trim}

abbrev pub attach_verb : Text
attach_verb = codes "attach"

abbrev pub resume_verb : Text
resume_verb = codes "resume"

abbrev pub new_verb : Text
new_verb = codes "new"

abbrev pub stop_verb : Text
stop_verb = codes "stop"

abbrev pub ask_verb : Text
ask_verb = codes "ask"

abbrev pub artifacts_verb : Text
artifacts_verb = codes "artifacts"

abbrev pub timeline_verb : Text
timeline_verb = codes "timeline"

abbrev pub tutor_verb : Text
tutor_verb = codes "tutor"

abbrev pub warm_verb : Text
warm_verb = codes "warm"

-- `Action::encode`
unfoldable pub encode : Action → Text
encode (attach name) = attach_verb ++ b' ' ∷ name
encode (resume id) = resume_verb ++ b' ' ∷ id
encode (new path) = new_verb ++ b' ' ∷ path
encode (stop id) = stop_verb ++ b' ' ∷ id
encode (ask text) = ask_verb ++ b' ' ∷ text
encode (artifacts id) = artifacts_verb ++ b' ' ∷ id
encode timeline = timeline_verb
encode tutor = tutor_verb
encode warm = warm_verb

-- `split_once(' ')`, with an empty argument for a line that has no space.
unfoldable pub split_verb : Text → Text × Text
split_verb [] = ([], [])
split_verb (c ∷ text) =
    let rest = split_verb text in if c == b' ' then ([], text) else (c ∷ rest.0, rest.1)

abbrev pub bare_action : Text → Option Action
bare_action verb =
    if text_eq verb timeline_verb
    then some timeline
    else (if text_eq verb tutor_verb
        then some tutor
        else (if text_eq verb warm_verb then some warm else none))

abbrev pub action_of : Text → Text → Option Action
action_of verb argument =
    if text_eq verb attach_verb
    then some (attach argument)
    else (if text_eq verb resume_verb
        then some (resume argument)
        else (if text_eq verb new_verb
            then some (new argument)
            else (if text_eq verb stop_verb
                then some (stop argument)
                else (if text_eq verb ask_verb
                    then some (ask argument)
                    else (if text_eq verb artifacts_verb
                        then some (artifacts argument)
                        else none)))))

abbrev pub by_argument : Text → Text → Option Action
by_argument verb [] = bare_action verb
by_argument verb (c ∷ argument) = action_of verb (c ∷ argument)

-- `Action::decode`
unfoldable pub decode : Text → Option Action
unfolding split_verb trim
decode text = let parts = split_verb (trim text) in by_argument parts.0 (trim parts.1)
