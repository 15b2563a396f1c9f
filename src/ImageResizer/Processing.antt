-- ===== src/ImageResizer/Processing.antt =====
-- `decodeImage`, `ProcessMessage` and `Run` of x/imgresizer/resizer.go.
use Prim.Native.String.{String}
use dwh.Base.{ℕ, zero, suc, Option, none, some, List, [], ◌∷◌, ⊤, ◌<>◌, str_eq, if◌then◌else◌}
use dwh.Common.Queue.{Body, object, malformed, unmarshal}
use dwh.Env.Action.{Outcome, ok, err, panic, errorf, error_text}
use dwh.Env.Calls.{Reply, reply, failure, no_answer, broken, fetched}
use dwh.ImageStorage.{Bytes}
use dwh.ImageResizer.{
  original, Host, StorageService, ImageProcessingWorker, check_and_send_image, send_all,
}

-- The first `n` bytes, with zeros after the end.
abbrev pub head : ℕ → Bytes → Bytes
head zero b = []
head (suc n) [] = 0 ∷ head n []
head (suc n) (b ∷ l) = b ∷ head n l

-- bytes.Reader.Read into the head: an empty reader is at its end.
abbrev pub read_head : Bytes → Reply Bytes
read_head [] = failure "EOF"
read_head (b ∷ l) = reply (head 261 (b ∷ l))

module _ (H : Host) where
  unfoldable pub get_image : String → Reply Bytes
  get_image url = elim (H.get url) [
    | no_answer e ↦ failure e
    | broken e ↦ failure ("could not read response body, error: " <> e)
    | fetched ba ↦ reply ba
  ]

  -- The switch on the format.
  unfoldable pub decode_format : String → Bytes → Reply H.Image
  decode_format format ba =
      if str_eq format "image/bmp"
      then H.bmp ba
      else if str_eq format "image/webp"
      then H.webp ba
      else if str_eq format "image/tiff"
      then H.tiff ba
      else if str_eq format "image/jpeg"
      then H.jpeg ba
      else if str_eq format "image/gif"
      then H.gif ba
      else if str_eq format "image/png"
      then H.png ba
      else failure "unknown image format"

  -- None is a vector image. A bytes.Reader can be rewound.
  unfoldable pub decode_image : Bytes → Reply (Option H.Image)
  unfolding decode_format
  decode_image ba = if H.is_svg ba then reply none else elim (read_head ba) [
    | failure e ↦ failure ("could not read image head, error: " <> e)
    | reply h ↦
        if H.is_image h
        then (elim (H.match h) [
          | failure e ↦ failure ("could not guess image, error: " <> e)
          | reply format ↦ elim (decode_format format ba) [
            | failure e ↦ failure ("could not decode image, error: " <> e)
            | reply image ↦ reply (some image)
          ]
        ])
        else failure "unknown image format"
  ]

  module _ (S : StorageService) where
    unfoldable pub process_message :
        ImageProcessingWorker → Body → S.Storage → Outcome ⊤ × S.Storage
    unfolding unmarshal get_image decode_image check_and_send_image send_all
    process_message irw (malformed e) s = (err (errorf ("img resizer unmarshal error: " <> e)), s)
    process_message irw (object o) s =
        let info = unmarshal o in
        elim (get_image info.url) [
          | failure e ↦ (err (errorf ("img resizer get image error: " <> e)), s)
          | reply ba ↦ elim (decode_image ba) [
            | failure e ↦ (err (errorf ("could not decode image, error: " <> e)), s)
            | reply (some image) ↦ send_all H S irw image irw.resolutions info s
            | reply none ↦
                let (sent, s') = check_and_send_image H S ba original info s in
                (
                  elim sent [
                    | ok _ ↦ ok tt
                    | err e ↦ err (errorf ("vector image checkAndSend error: " <> error_text e))
                    | panic ↦ panic
                  ],
                  s',
                )
          ]
        ]

    -- The loop of `Run` over the deliveries that come in, with the number of those that it has
    -- acknowledged. An error is logged, of `ProcessMessage` and of `Ack`.
    unfoldable pub deliveries :
        ImageProcessingWorker → List Body → S.Storage × ℕ → Outcome ⊤ × (S.Storage × ℕ)
    unfolding process_message
    deliveries irw [] (s, acks) = (ok tt, (s, acks))
    deliveries irw (d ∷ msgs) (s, acks) =
        let (r, s') = process_message irw d s in
        let rest = deliveries irw msgs (s', suc acks) in
        elim r [ ok _ ↦ rest | err _ ↦ rest | panic ↦ (panic, (s', acks)) ]

    -- The first argument is what `GetMessageChan` returns.
    unfoldable pub run :
        Outcome (List Body) → ImageProcessingWorker → S.Storage → Outcome ⊤ × (S.Storage × ℕ)
    unfolding deliveries
    run (ok msgs) irw s = deliveries irw msgs (s, 0)
    run (err e) irw s =
        (err (errorf ("could not get rabbitMQ msg chan, error: " <> error_text e)), (s, 0))
    run panic irw s = (panic, (s, 0))
