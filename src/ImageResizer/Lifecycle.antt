-- ===== src/ImageResizer/Lifecycle.antt =====
-- The start and the end of the worker of x/imgresizer/resizer.go.
use Prim.Native.String.{String}
use dwh.Base.{List, ⊤, ◌<>◌}
use dwh.Common.Config.Reading.{ConfigHost, read_common_config}
use dwh.Common.Connections.{
  Call, Faults, perform, wrapped, RmqReceiver, new_rmq_receiver, closer_steps,
}
use dwh.Env.Action.{Outcome, ok, err, panic}
use dwh.ImageResizer.{ImageProcessingWorker}

-- The worker with its end of the queue, and where it finds the image storage.
pub record Service : Type 0 where
  pub receiver : RmqReceiver
  pub worker : ImageProcessingWorker
  pub destination : String

unfoldable pub new_image_processing_worker :
    Faults → ConfigHost → String → String → List Call → Outcome Service × List Call
unfolding read_common_config new_rmq_receiver
new_image_processing_worker F V config_file_name config_path made =
    let cfg = read_common_config V config_file_name config_path in
    let i = cfg.img_resizer_service in
    let (receiver, made') =
      new_rmq_receiver F V cfg i.img_queue_name i.img_queue_max_priority i.img_queue_prefetch_count
        made in
    (
      elim (wrapped "could not create rabbitMQ receiver, error: " receiver) [
        | err e ↦ err e
        | panic ↦ panic
        | ok r ↦ ok (record {
          receiver = r;
          worker = record {
            interpolation_method = i.interpolation_method;
            resolutions = i.resolutions;
          };
          destination =
              cfg.img_storage_service.storage_addr
              <> (":" <> V.decimal cfg.img_storage_service.storage_port);
        })
      ],
      made',
    )

unfoldable pub closer : Faults → List Call → Outcome ⊤ × List Call
unfolding perform closer_steps
closer F made =
    let (r, made') = perform F closer_steps made in
    (wrapped "could not invoke receiver closer, error: " r, made')
