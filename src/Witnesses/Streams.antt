-- ===== src/Witnesses/Streams.antt =====
-- A stream of two events in three reads, whose second line is cut in the middle, and an answer 503.
use freellm_gateway.Base.{ℕ, none, some, List, [], ◌∷◌, ◌≡◌, refl, inr}
use freellm_gateway.Classify.{ClassifierInput}
use freellm_gateway.Classify.Regex.{units}
use freellm_gateway.Stream.{Platform, read_body}
use freellm_gateway.Stream.Chunks.{
  IsStreaming, yielded, gots, bytes_of, read_text, read_body-read_text,
}

-- Bytes of ASCII texts, and payloads as they are.
abbrev ascii : Platform (List ℕ)
ascii = record { Decoder = Unit; decode = λ d bytes. (d, bytes); parse = λ text. inr text }

abbrev streaming : IsStreaming ascii
streaming = record { decode_nil = λ d. refl; decode_append = λ d xs ys. refl }

abbrev reads : List (ℕ × List ℕ)
reads = (120, units "data: {1}\nda") ∷ (180, units "ta: {2") ∷ (240, units "}\ndata: [DONE]\n") ∷ []

read_body-read_text_example :
    yielded ascii (read_body ascii [] none tt (gots ascii reads)) ≡ read_text ascii (bytes_of reads)
read_body-read_text_example = read_body-read_text ascii streaming tt reads

two_events : (read_body ascii [] none tt (gots ascii reads)).chunks ≡ units "{1}" ∷ units "{2}" ∷ []
unfolding read_body units freellm_gateway.Stream.lines_of freellm_gateway.Stream.read_lines
    freellm_gateway.Stream.read_line freellm_gateway.Stream.read_payload
    freellm_gateway.Keys.Secret.trim freellm_gateway.Keys.Secret.trim_start
    freellm_gateway.Keys.Secret.trim_end
two_events = refl

abbrev status : ℕ
status = 503

abbrev unavailable : ClassifierInput
unavailable = record {
  status = some status;
  message = none;
  body_snippet = none;
  cause_name = none;
  errno = none;
}
