-- ===== src/Lib.antt =====
-- The telemetry dashboard: two clients of one server, a page in the browser (client/) and an app on
-- the phone (mobile/src/). Each keeps a WebSocket to the server alive, shows the frames that come
-- over it, and sends the fixes of its GPS. The phone queues a fix that it cannot send and sends it
-- later. The page also shows charts of the frames, and a map and a panorama of the latest fix with its
-- address; a service worker keeps the page's files, so that it can be opened without a network.
--
-- The files and the code:
--   Prelude            names of the libraries, Boolean tests, lists over native numbers, integers,
--                      lists of pairs with text keys.
--   Host               what both socket clients use of the runtime: sockets, timers, frames sent.
--   Wire               the messages of the server as far as the clients read them.
--   Web/Socket         client/ws.js, `TelemetrySocket`: connect, disconnect, send, isOpen, _open and
--                      its listeners, _scheduleReconnect.
--   Web/Geo            the tests and angles shared by client/naver-map.js, client/naver-roadview.js
--                      and client/gps.js: hasLatLon, normalizePan, normalizeHeading.
--   Web/Roadview       client/naver-roadview.js: updateFromFix, _maybeReverseGeocode,
--                      parseRetryAfterSeconds, extractErrorDetail.
--   Mobile/Protocol    mobile/src/telemetry/protocol.js: the payloads.
--   Mobile/Queue       mobile/src/telemetry/store-forward-queue.js: `StoreForwardQueue`; in
--                      Mobile/Queue/Async its calls are cut at the awaits of the storage's answer
--                      and of its write.
--   Mobile/WsClient    mobile/src/telemetry/ws-client.js: `TelemetryWsClient`.
--   Mobile/Gps         mobile/src/telemetry/gps-client.js: requestLocationPermission, `GpsClient`,
--                      and buildGpsOptions of mobile/src/config.js; in Mobile/Gps/Readings the
--                      fixes made of readings, in Mobile/Gps/Control the GPS buttons of
--                      mobile/src/App.js.
--   Mobile/App         mobile/src/App.js: sendGpsUplinkWithQueue, flushQueuedGps, buildMeta,
--                      sendMark and two effects, over Mobile/Queue and Mobile/WsClient.
--   Mobile/Screen      mobile/src/App.js: the whole component, with the callbacks of its socket
--                      client, the frame age, the unmount, and Mobile/App and Mobile/Gps/Control.
--   Web/Page           client/app.js: connectSocket, disconnectSocket, the callbacks of every socket
--                      made, startPing and stopPing, sendGpsUplink, staleness and the pill; in
--                      Web/Page/Counting the counters of frames.
--   Web/Map            client/naver-map.js: updateFromFix, _pushTrail, addMark, resize.
--   Web/Auth           client/naver-map.js: hasNaverAuthFailureText, the probe of the console and the
--                      watch for a failed authentication.
--   Web/Startup        initPublicConfig of client/app.js with init and loadNaverScript of
--                      client/naver-map.js and client/naver-roadview.js.
--   Web/Charts         client/charts.js: addSample, addMarker and what render shows; in
--                      Web/Charts/Canvas what it draws, and _resizeCanvas.
--   Web/Blend          client/gps.js: lerp, lerpHeading, smoothFix, lerpFix.
--   Web/Gps            client/gps.js: `GpsTracker`.
--   Web/Panel          client/ui.js: updateConnection, updateGauges, updateGps.
--   Web/Dashboard      client/app.js: the 100 ms interval, the GPS button, gpsStateOverride, sendMark,
--                      over all of the above.
--   Web/Address        client/app.js: normalizeHttpBase, httpToWs.
--   Web/Theme          client/app.js: readStoredTheme, writeStoredTheme, applyTheme.
--   Web/Layout         client/app.js: applySplitLayout, installVerticalSplitter, fitViewportLayout.
--   Web/Offline        client/sw.js: the install, activate and fetch handlers.
--   Mobile/Address     mobile/src/config.js: normalizeBaseUrl and toWsUrl.
--
-- An object of the code is a record of its fields. A method is a function from the record, and the
-- part of its surroundings that it changes, to the new ones. Callbacks and events are constructors
-- of a type `Event`; `handle` is the method or listener that runs, `enabled` says when the runtime
-- can deliver the event, and `Reach` or `run` is any order of them. A function that awaits is cut at
-- its await into the part before, the event, and the part after. Within a part nothing else runs.
--
-- Conventions and bounds: times are whole milliseconds, and the seconds of a payload stand there in
-- milliseconds. A coordinate or an angle of the page is a whole number of millionths of a degree; on
-- the phone the type of numbers is an argument. A number that `Number.isFinite` rejects is `none`.
-- Counters do not wrap, as they stay far below 2 ^ 53. Loops are structural recursions on a list, so
-- no fuel is needed: `flush` is one over the items that are left.
--
-- Arguments of the model, for what is not the program's: the storage, which answers a read with a
-- text, nothing or an error, and takes a write or fails; the network of the service worker, and which
-- responses a cache takes; the map service, whose script may fail and whose constructors may throw;
-- the codec of JSON; the answers of the user to permission questions; the random part of a wait; the
-- width of a text on a canvas; the addresses that the browser's `new WebSocket` takes, as it throws for
-- the others (that of react-native is taken to make a socket for each); and the great-circle distance,
-- which the code computes with sines of doubles and compares with two bounds.
--
-- Blends of two fixes are rounded to the units of their numbers. A share of the page's width is a whole
-- number of thousandths of a percent, a place on a canvas of thousandths of a pixel. `Web/Startup`
-- needs no fuel: its events are bounded by the five attempts to make the panorama.
--
-- Not modelled: the fonts and widths of what a chart draws, the making of texts of numbers, the
-- great-circle distance and the end of the heading line, which need sines of doubles, the tree of the
-- phone's view, the native location bridges beyond what they run, the server, and the build files and
-- tests.
pub mod Prelude
pub mod Host
pub mod Wire
pub mod Web
pub mod Mobile
