-- ===== src/Lib.antt =====
-- TPC: a C++ library that reads the magnetic-field sensors of a cylindrical chamber over OPC UA and
-- reconstructs the field from them.
--
-- The parts and how they interact. The client discovers the channels of the hardware and subscribes
-- to them; each data change goes, averaged, into the frame receiver; the facade asks for a frame,
-- by sensor names, and calibrates it. From measurements the analytics manager fits the coefficients
-- of a basis of field functions by a singular value decomposition, and then evaluates the field at
-- a point or over a grid of the cylinder, which it keeps for its readers. Events go through event
-- handlers.
--
-- What models what (paths from the repository's root):
--   Prelude            Boolean tests, lists, integers, std::expected with exceptions (Outcome), loops
--                      by index, and std::unordered_map, whose list order stands for the unspecified
--                      order of its walk
--   Double             the operations of `double` that the code uses, as an interface; Double/Fixed
--                      is an arithmetic that meets it, for tests and witnesses
--   Utilities/EventHandler    include/tpc/utilities/event_handler.hpp: subscribe, unsubscribe,
--                      release, dispose, invoke, empty and size, each as one step under the mutex
--   Utilities/ChunkView       include/tpc/utilities/chunkview.hpp: the iterator and its walk
--   Utilities/HeaderFunction  include/tpc/utilities/header_function.hpp: invoke_from_span and the
--                      call by an index sequence, for a header of one mode and three coordinates
--   Analytics/Models   include/tpc/analytics/models: points, measurements and the default basis
--   Analytics/FieldCollection the class of that name in three_dimension_models.hpp
--   Analytics/Basis, SvdSolver, Modes
--                      include/tpc/analytics/svd: BasisCollection and solve_svd, and the sum over
--                      the modes that the manager writes in two places
--   Analytics/Grid, Manager
--                      include/tpc/analytics/analytics_manager/analytics_manager.hpp: the walk over
--                      the grid, and create, calculate_svd_coefficients, evaluate_for_point,
--                      calculate_field and get_field_data; Manager/Slice has evaluate_field_slice,
--                      and Manager/Export both export_to_vtk
--   Analytics/Vtk      include/tpc/analytics/output/vtk_field_exporter.hpp: the tests of the field and
--                      the layers (Points), the rows of a layer (Rows), the triangles between two
--                      rows (Triangulation, Strips), the lines of the file (Document) and the writing
--                      (Export); Reader is a reader of the format, written from the format
--   System/FrameReceiver      src/system/client/frame_receiver.cpp
--   System/Discovery   src/system/client/client.cpp and include/tpc/system/client/client.hpp:
--                      find_child, find_slot_ids, append_channels and discover_folders, and the
--                      browse operation of helpers/opcua_browse_adapter.hpp
--   System/Client      src/system/client/client.cpp: get_frame, get_sensors_names and
--                      on_subscription_data_received
--   System/Subscription       src/system/client/subscription.cpp: create_subscription,
--                      create_monitored_items, the callbacks of both, and release
--   System/Connection  src/system/client/client.cpp: connect_async, stop, is_running and the phases of
--                      the OPC UA worker
--   System/Polling     src/system/tpc.cpp: start_async, stop_async, start_polling_async and the phases
--                      of polling_worker_loop, in histories of calls and steps
--   System/Calibration include/tpc/system/models/data.hpp and, of src/system/tpc.cpp,
--                      get_frame_request and millivolts_to_gauss
--   System/TestFrame   src/system/tpc.cpp: create_test_frame
--   System/Session     src/system/client/client.cpp and include/tpc/system/client/client.hpp: the
--                      session handlers, the task of initialize_monitored_items after each of its
--                      stages, the frames after the data changes of a session, and
--                      histories of sessions, answers and data changes (Histories)
--   System/Facade      the facade TPC of src/system/tpc.cpp as a whole: its events (Handlers), the
--                      factory methods and constructors of TPC, Client and Subscription (Factory),
--                      and is_running, get_field_slice and export_to_vtk (Queries); Lifetime
--                      is about its client after any such history, and Fields about its
--                      manager after any history of the field worker
--   System/FieldWorker of src/system/tpc.cpp, calculate_field_async and field_worker_loop: the state
--                      they share, the phases of the worker, and histories in which the steps of the
--                      worker and the calls of the users interleave
--
-- State and errors. A method that changes its object takes the state and returns it next to its
-- outcome; an early return or an exception keeps the state that was reached. `failed` is an
-- std::unexpected, `thrown` an exception, `undefined` an access out of range. The widths of
-- std::size_t, std::uint64_t and Eigen::Index are those of a 64-bit target. A method under one lock
-- is one step. The calls of Client::connect_async and of stop do not overlap. A read of the field that
-- races with its calculation is undefined. Allocation and the creation of threads do not fail, and the
-- capacities that `reserve` asks for are no state. What the handlers of an event throw comes with the
-- step that invokes it, where the code after that depends on it.
--
-- Parameters. The floating-point unit and <cmath> are the interface Double: nothing is assumed of
-- rounding. Eigen's decomposition is the record Eigen of SvdSolver, about whose solution nothing is
-- assumed. The file system is the record Disk of Analytics/Vtk/Export, whose calls may fail; the
-- lines of a file whose stream fails need not all be in it. The digits that a stream prints for a
-- double are a Numeral of Vtk/Document, of which a reader gets a rounded value. The accessors of an
-- OPC UA reference are the record References of Discovery, and browsing is a
-- function, as is std::to_string. What the OPC UA library answers or throws comes with the step that
-- meets it.
--
-- Fuel. The two loops over a double of the grid take fuel (float_range), since their end rests on
-- rounding; the fuel is enough where the loops end, and GridEnds states just that. The while loops
-- of the exporter take as fuel the number of the points of the layer, or of the two rows, and that
-- is shown to be enough in Vtk/Rows and Vtk/Strips. All other loops run over a list or a number.
-- The threads are no loops: a worker makes a step at a time.
--
-- Not modelled: the logger (output only), eigen_module.hpp and the textual constants of
-- core/definitions that no code uses, the pairs of accessors that only return a field, the tests and
-- the build files.
pub mod Prelude
pub mod Double
pub mod System
pub mod Utilities
pub mod Analytics
