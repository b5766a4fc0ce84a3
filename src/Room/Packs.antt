-- ===== src/Room/Packs.antt =====
-- TOPIC_PACKS of cloudflare/game.ts.
use Prim.Native.Char.{code}
use Prim.Native.String.{String}
use non_stop_talk.Prelude.{List, [], ◌∷◌, Option, none, some, map, if◌then◌else◌}
use non_stop_talk.Text.{Text, same_text}

-- The code points of a literal.
abbrev pub codes : String → Text
codes String.[] = []
codes (String.◌∷◌ c s) = code c ∷ codes s

pub record TopicPack : Type 0 where
  pub id : Text
  pub name : Text
  pub difficulty : Text
  pub description : Text
  pub topics : List Text

abbrev pub everyday : TopicPack
everyday = record {
  id = codes "everyday";
  name = codes "Everyday Sparks";
  difficulty = codes "Easy";
  description = codes "Low-friction opinions and stories for a first game.";
  topics = map codes (
      "The best breakfast food and why everyone else is wrong"
      ∷ "A tiny convenience that makes life dramatically better"
      ∷ "The most overrated household item" ∷ "Something everyone should try once"
      ∷ "A harmless rule you would add to daily life" ∷ "The best way to spend a rainy afternoon"
      ∷ "A skill that looks easy until you try it" ∷ "The ideal snack for a long road trip" ∷ []);
}

abbrev pub story : TopicPack
story = record {
  id = codes "story";
  name = codes "Story Time";
  difficulty = codes "Easy";
  description = codes "Personal stories that keep the words coming.";
  topics = map codes (
      "A time you got completely lost" ∷ "The strangest meal you have ever eaten"
      ∷ "A plan that fell apart in the funniest way"
      ∷ "The best gift you have ever given or received"
      ∷ "A moment you were sure you were in trouble"
      ∷ "The most memorable stranger you have ever met" ∷ "A small victory you are still proud of"
      ∷ "The weirdest thing you believed as a kid" ∷ []);
}

abbrev pub absurd : TopicPack
absurd = record {
  id = codes "absurd";
  name = codes "Absurd Arguments";
  difficulty = codes "Medium";
  description = codes "Strange prompts that reward commitment.";
  topics = map codes (
      "Why spoons deserve more respect than forks"
      ∷ "The official rules for living with a dragon roommate"
      ∷ "How to convince aliens that humans are normal" ∷ "Why elevators should have theme music"
      ∷ "The business case for professional pillow fighting"
      ∷ "How you would run a city where everyone walks backward" ∷ "Why clouds are suspicious"
      ∷ "The hidden politics of sandwich shapes" ∷ []);
}

abbrev pub debate : TopicPack
debate = record {
  id = codes "debate";
  name = codes "Fast Debate";
  difficulty = codes "Medium";
  description = codes "Clear positions for louder groups.";
  topics = map codes (
      "Remote work is better than office work" ∷ "Movies are better when they are shorter"
      ∷ "Every city should ban cars from one street downtown"
      ∷ "Board games are better than video games at parties" ∷ "Cooking is more useful than coding"
      ∷ "Schools should teach negotiation" ∷ "Everyone should have to work in customer service once"
      ∷ "Public libraries are underrated infrastructure" ∷ []);
}

abbrev pub expert : TopicPack
expert = record {
  id = codes "expert";
  name = codes "Instant Expert";
  difficulty = codes "Hard";
  description = codes "Pretend mastery of topics nobody prepared for.";
  topics = map codes (
      "The complete history of the paperclip" ∷ "How to referee a professional staring contest"
      ∷ "The migration patterns of shopping carts"
      ∷ "Advanced techniques in competitive queue standing" ∷ "The economics of lost socks"
      ∷ "A field guide to office chair species"
      ∷ "The secret training regimen of weather forecasters"
      ∷ "Why ancient civilizations feared the traffic cone" ∷ []);
}

abbrev pub topic_packs : List TopicPack
topic_packs = everyday ∷ story ∷ absurd ∷ debate ∷ expert ∷ []

-- TOPIC_PACKS.find by id
unfoldable pub find_pack : Text → List TopicPack → Option TopicPack
find_pack id [] = none
find_pack id (p ∷ ps) = if same_text p.id id then some p else find_pack id ps
